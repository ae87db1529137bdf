-- ===== src/Notify/Dispatch/Log.antt =====
-- What the log of a dispatcher records, and that the dispatcher's maps say no more.
use aiman.Base.{
  ℕ, ◌+◌, ◌≤◌, ◌≡◌, ◌⊎◌, inl, inr, Bool, true, false, ◌&&◌, ◌||◌, List, [], ◌∷◌, String, str_eq,
  ◌==◌, All, arith, if◌then◌else◌,
}
use aiman.Notify.Kinds.{Notification}
use aiman.Notify.Dispatch.{
  Event, sent, failed, gave_up, Dispatcher, pass, mark_sent, mark_failed, give_up,
}

abbrev pub was_sent : ℕ → String → List Event → Bool
was_sent n s [] = false
was_sent n s (sent m t ∷ log) = n == m && str_eq s t || was_sent n s log
was_sent n s (failed m t ∷ log) = was_sent n s log
was_sent n s (gave_up m ∷ log) = was_sent n s log

abbrev pub was_given_up : ℕ → List Event → Bool
was_given_up n [] = false
was_given_up n (gave_up m ∷ log) = n == m || was_given_up n log
was_given_up n (sent m t ∷ log) = was_given_up n log
was_given_up n (failed m t ∷ log) = was_given_up n log

-- How often a sink refused the notification.
abbrev pub failures : ℕ → List Event → ℕ
failures n [] = 0
failures n (failed m t ∷ log) = (if n == m then 1 else 0) + failures n log
failures n (sent m t ∷ log) = failures n log
failures n (gave_up m ∷ log) = failures n log

-- The maps of the dispatcher say no more than the log does.
pub record IsRecorded (d : Dispatcher) : Type 0 where
  pub delivered : (n : ℕ) (s : String) → d.done n s ≡ true → was_sent n s d.log ≡ true
  pub counted : (n : ℕ) → d.attempts n ≤ failures n d.log
  pub after_three : (n : ℕ) → was_given_up n d.log ≡ true → 3 ≤ failures n d.log

-- Every sink took the notification, or it was given up.
abbrev pub Settled : List String → List Event → Notification → Type 0
Settled sinks log n = (was_given_up n.seq log ≡ true) ⊎ All (λ s. was_sent n.seq s log ≡ true) sinks

-- Events are only added.
pub record Grows (old new : List Event) : Type 0 where
  pub keeps_sent : (n : ℕ) (s : String) → was_sent n s old ≡ true → was_sent n s new ≡ true
  pub keeps_given_up : (n : ℕ) → was_given_up n old ≡ true → was_given_up n new ≡ true

pub Grows-refl : (log : List Event) → Grows log log
Grows-refl log = record { keeps_sent = λ n s h. h; keeps_given_up = λ n h. h }

pub Grows-trans : {a b c : List Event} → Grows a b → Grows b c → Grows a c
Grows-trans f g = record {
  keeps_sent = λ n s h. g.keeps_sent n s (f.keeps_sent n s h);
  keeps_given_up = λ n h. g.keeps_given_up n (f.keeps_given_up n h);
}

pub Grows-cons : (e : Event) (log : List Event) → Grows log (e ∷ log)
Grows-cons (sent m t) log = record { keeps_sent = λ n s h. ground arith; keeps_given_up = λ n h. h }
Grows-cons (failed m t) log = record { keeps_sent = λ n s h. h; keeps_given_up = λ n h. h }
Grows-cons (gave_up m) log = record {
  keeps_sent = λ n s h. h;
  keeps_given_up = λ n h. ground arith;
}

All-Grows :
    (n : ℕ) {old new : List Event} (sinks : List String)
    → Grows old new
    → All (λ s. was_sent n s old ≡ true) sinks
    → All (λ s. was_sent n s new ≡ true) sinks
All-Grows n [] g h = tt
All-Grows n (s ∷ sinks) g h = (g.keeps_sent n s h.0, All-Grows n sinks g h.1)

pub Settled-Grows :
    (n : Notification) {old new : List Event} (sinks : List String)
    → Grows old new
    → Settled sinks old n
    → Settled sinks new n
Settled-Grows n sinks g (inl h) = inl (g.keeps_given_up n.seq h)
Settled-Grows n sinks g (inr h) = inr (All-Grows n.seq sinks g h)

pub mark_sent-IsRecorded :
    (n : ℕ) (s : String) (d : Dispatcher) → IsRecorded d → IsRecorded (mark_sent n s d)
unfolding mark_sent
mark_sent-IsRecorded n s d r = record {
  delivered = λ m t h. ground (arith, r.delivered m t);
  counted = λ m. r.counted m;
  after_three = λ m h. r.after_three m h;
}

pub mark_failed-IsRecorded :
    (n : ℕ) (s : String) (d : Dispatcher) → IsRecorded d → IsRecorded (mark_failed n s d)
unfolding mark_failed
mark_failed-IsRecorded n s d r = record {
  delivered = λ m t h. r.delivered m t h;
  counted = λ m. ground (arith, r.counted m, r.counted n);
  after_three = λ m h. ground (arith, r.after_three m);
}

pub give_up-IsRecorded :
    (n : ℕ) (d : Dispatcher) → 3 ≤ d.attempts n → IsRecorded d → IsRecorded (give_up n d)
unfolding give_up
give_up-IsRecorded n d three r = record {
  delivered = λ m t h. r.delivered m t h;
  counted = λ m. r.counted m;
  after_three = λ m h. ground (arith, r.after_three m, r.counted n);
}

pub pass-IsRecorded : (n : ℕ) (d : Dispatcher) → IsRecorded d → IsRecorded (pass n d)
unfolding pass
pass-IsRecorded n d r = record {
  delivered = λ m t h. ground (arith, r.delivered m t);
  counted = λ m. ground (arith, r.counted m);
  after_three = r.after_three;
}
