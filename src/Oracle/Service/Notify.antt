-- ===== src/Oracle/Service/Notify.antt =====
-- The notification of the subscribers of internal/oracle/oracle.go.
use shai.Prelude.{
  ℕ, suc, ◌+◌, ◌-◌, ◌≤◌, ◌≡◌, refl, sym, List, [], ◌∷◌, ◌++◌, All, ltb, length, length-append, drop,
  map, arith, Bool-cases, inl, inr, ◌<◌,
}
use shai.Oracle.Service.{
  PriceUpdate, send, notify_subscribers, subscriber_buffer_size, without_oldest,
}

-- A queue that a channel holds.
abbrev pub Fits : List PriceUpdate → Type 0
Fits queue = length queue ≤ subscriber_buffer_size

-- The newest n of the updates, in their order.
abbrev pub newest : ℕ → List PriceUpdate → List PriceUpdate
newest n updates = drop (length updates - n) updates

-- The updates that are in excess of what the channels hold once one is added to each.
abbrev pub excess : List (List PriceUpdate) → ℕ
excess [] = 0
excess (q ∷ qs) = (suc (length q) - 100) + excess qs

drop_0 : (queue : List PriceUpdate) (n : ℕ) → n ≡ 0 → drop n queue ≡ queue
drop_0 queue n e = rw e refl

drop_first :
    (queue : List PriceUpdate) (n : ℕ) (update : PriceUpdate)
    → n ≡ 1
    → 0 < length queue
    → drop n (queue ++ update ∷ []) ≡ without_oldest queue ++ update ∷ []
drop_first [] n update e h = absurd (omega (arith, h))
drop_first (u ∷ us) n update e h = rw e refl

send-newest :
    (update : PriceUpdate) (queue : List PriceUpdate)
    → Fits queue
    → ((send update queue).0 ≡ newest 100 (queue ++ update ∷ []))
      × ((send update queue).1 ≡ suc (length queue) - 100)
unfolding send
send-newest update queue h =
    let longer = length-append queue (update ∷ []) in
    elim (Bool-cases (ltb (length queue) subscriber_buffer_size)) [
      | inl room ↦
          rw (send, room)
            (
              sym (drop_0 (queue ++ update ∷ []) _ (ground (arith, longer, room))),
              ground (arith, room),
            )
      | inr full ↦
          rw (send, full)
            (
              sym (
                  drop_first queue _ update (ground (arith, longer, full, h))
                    (ground (arith, full))),
              ground (arith, full, h),
            )
    ]

-- If each channel holds at most 100 updates, then a notification leaves in each, in their order, the
-- newest 100 of the updates that it held and the new one, and the number of updates that it reports
-- as dropped is the number of those that are left out.
pub notify_subscribers-newest :
    (update : PriceUpdate) (queues : List (List PriceUpdate))
    → All Fits queues
    → ((notify_subscribers update queues).0 ≡ map (λ q. newest 100 (q ++ update ∷ [])) queues)
      × ((notify_subscribers update queues).1 ≡ excess queues)
unfolding notify_subscribers
notify_subscribers-newest update [] h = (refl, refl)
notify_subscribers-newest update (q ∷ qs) h =
    let (kept, dropped) = notify_subscribers-newest update qs h.1 in
    let (one, lost) = send-newest update q h.0 in
    rw (one, kept) (refl, omega (arith, dropped, lost))
