-- ===== src/Login/Retry.antt =====
-- How often the login is tried, and what its result says.
use ultra_mds.Base.{
  ℕ, zero, suc, ◌+◌, ◌<◌, min, ◌≡◌, ◌↔◌, refl, ap, sym, ◌∙◌, ◌⊎◌, inl, inr, List, [], ◌∷◌, ◌++◌,
  if◌then◌else◌, arith, Bool-cases,
}
use ultra_mds.Base.Int.{ℤ, pos, negsuc, eq_ℤ, eq_ℤ_iff}
use ultra_mds.Login.{
  Loginer, ReqUserLogin, LoginEvent, requested, slept, sent, failed, gave_up, login_error,
  login_loop, conclude, login, login_request, max_retry,
}

-- The requests among the events.
abbrev pub requests : List LoginEvent → ℕ
requests [] = 0
requests (requested r ∷ es) = suc (requests es)
requests (_ ∷ es) = requests es

requests-append : (xs ys : List LoginEvent) → requests (xs ++ ys) ≡ requests xs + requests ys
requests-append [] ys = omega arith
requests-append (requested r ∷ xs) ys = omega (arith, requests-append xs ys)
requests-append (slept ∷ xs) ys = requests-append xs ys
requests-append (sent ∷ xs) ys = requests-append xs ys
requests-append (failed c e n ∷ xs) ys = requests-append xs ys
requests-append (gave_up ∷ xs) ys = requests-append xs ys

-- The index of the first answer 0 from `count` on, or the number of answers that are looked at.
unfoldable pub failures : (ℕ → ℤ) → ℕ → ℕ → ℕ
failures answer zero count = 0
failures answer (suc left) count =
    let rest = suc (failures answer left (count + 1)) in
    if eq_ℤ (answer count) (pos 0) then 0 else rest

login_loop-failures :
    (answer : ℕ → ℤ) (req : ReqUserLogin) (left count : ℕ) (result : ℤ) (events : List LoginEvent)
    → let r = login_loop answer req left count result events in
      let n = failures answer left count in
      ((n < left) × (r.0 ≡ pos 0) × (requests r.1 ≡ requests events + n + 1))
      ⊎ ((n ≡ left)
          × (r.0 ≡ pos 0 → (left ≡ 0) × (result ≡ pos 0))
          × (requests r.1 ≡ requests events + n))
unfolding login_loop failures
login_loop-failures answer req zero count result events = inr (refl, λ h. (refl, h), omega arith)
login_loop-failures answer req (suc left) count result events =
    let result' : ℤ = answer count in
    let sent_now : List LoginEvent = requested req ∷ sent ∷ [] in
    let sent_in_vain : List LoginEvent =
      requested req ∷ failed result' (login_error result') (count + 1) ∷ slept ∷ [] in
    let ih = login_loop-failures answer req left (count + 1) result' (events ++ sent_in_vain) in
    elim (Bool-cases (eq_ℤ result' (pos 0))) [
      | inl e ↦ rw e (
          inl (
            omega arith,
            (eq_ℤ_iff result' (pos 0)).0 e,
            omega (arith, requests-append events sent_now),
          ))
      | inr e ↦ rw e (elim ih [
        | inl (less, ok, n) ↦
            inl (omega (arith, less), ok, omega (arith, n, requests-append events sent_in_vain))
        | inr (all, last, n) ↦ inr (
          ap suc all,
          λ h. absurd (cc (e, (eq_ℤ_iff result' (pos 0)).1 ((last h).1))),
          omega (arith, n, requests-append events sent_in_vain),
        )
      ])
    ]

conclude-requests :
    (r : ℤ × List LoginEvent) → ((conclude r).0 ≡ r.0) × (requests (conclude r).1 ≡ requests r.1)
unfolding conclude
conclude-requests (result, events) = elim (Bool-cases (eq_ℤ result (pos 0))) [
  | inl e ↦ rw e (refl, refl)
  | inr e ↦ rw e (refl, omega (arith, requests-append events (gave_up ∷ [])))
]

-- The login returns 0 exactly if one of the first three answers is 0. With n failures before that
-- answer it sends n + 1 requests, and without such an answer three.
pub login-failures :
    (answer : ℕ → ℤ) (l : Loginer)
    → let r = login answer l in
      let n = failures answer max_retry 0 in
      ((r.0 ≡ pos 0) ↔ (n < max_retry)) × (requests r.1 ≡ min (n + 1) max_retry)
unfolding login
login-failures answer l =
    let r : ℤ × List LoginEvent = login_loop answer (login_request l) max_retry 0 (negsuc 0) [] in
    let (same, kept) = conclude-requests r in
    elim (login_loop-failures answer (login_request l) max_retry 0 (negsuc 0) []) [
      | inl (less, ok, n) ↦ ((λ _. less, λ _. same ∙ ok), omega (arith, less, n, kept))
      | inr (all, last, n) ↦ (
        (λ h. absurd (ground (arith, last (sym same ∙ h))), λ h. absurd (omega (arith, h, all))),
        omega (arith, all, n, kept),
      )
    ]
