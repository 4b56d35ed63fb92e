-- ===== src/Processor/Timestamp/Order.antt =====
-- How the packed timestamps order and measure time.
use ultra_mds.Base.{◌+◌, ◌-◌, ◌*◌, ◌<◌, ◌≡◌, ◌↔◌, ◌⊎◌, inl, inr, arith}
use ultra_mds.Processor.Timestamp.Packed.{Moment, IsMoment, packed, elapsed}

-- `c` comes before `e` in the calendar: the first of day, hour, minute, second and millisecond that
-- differs is smaller.
abbrev pub Before : Moment → Moment → Type 0
Before c e =
    (c.day < e.day)
    ⊎ ((c.day ≡ e.day)
        × ((c.hour < e.hour)
            ⊎ ((c.hour ≡ e.hour)
                × ((c.minute < e.minute)
                    ⊎ ((c.minute ≡ e.minute)
                        × ((c.second < e.second)
                            ⊎ ((c.second ≡ e.second) × (c.millisecond < e.millisecond))))))))

packed-Before : (c e : Moment) → IsMoment c → IsMoment e → Before c e → packed c < packed e
packed-Before c e v w (inl h) = omega arith
packed-Before c e v w (inr (d, inl h)) = omega arith
packed-Before c e v w (inr (d, inr (h, inl m))) = omega arith
packed-Before c e v w (inr (d, inr (h, inr (m, inl s)))) = omega arith
packed-Before c e v w (inr (d, inr (h, inr (m, inr (s, ms))))) = omega arith

Before-packed : (c e : Moment) → IsMoment c → IsMoment e → packed c < packed e → Before c e
Before-packed c e v w h = omega arith

-- For moments in range, the packed timestamps are ordered as the calendar orders the moments.
pub packed-lt_iff : (c e : Moment) → IsMoment c → IsMoment e → (packed c < packed e) ↔ Before c e
packed-lt_iff c e v w = (Before-packed c e v w, packed-Before c e v w)

-- The difference that the code compares with a tolerance in milliseconds is, within a day, the true
-- number of milliseconds between the moments and 40,000 more for each step of the minutes, and a step
-- of the hours counts as 160 minutes.
pub packed_difference :
    (c e : Moment)
    → IsMoment c
    → IsMoment e
    → c.day ≡ e.day
    → Before c e
    → packed e - packed c
      ≡ (elapsed e - elapsed c) + 40_000 * ((160 * e.hour + e.minute) - (160 * c.hour + c.minute))
packed_difference c e v w d b = omega arith
