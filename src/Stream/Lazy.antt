-- ===== src/Stream/Lazy.antt =====
-- What a stream over a reader promises to its consumer, without tasks, semaphores and channels: a
-- queue of bounded length between a reader that is entered ahead of the consumer, or only on its
-- demand, and a consumer that takes the oldest message after it has asked for one.
use xorq_datafusion.Common.{ℕ, suc, ◌<◌, ◌≡◌, Bool, true, false, not, List, [], ◌∷◌, ◌++◌, length}

-- How often the reader was entered, what the consumer got, what waits for it, how many messages it
-- has asked for, whether the reader is not entered again, and whether the consumer is there.
pub record Lazy (A : Type 0) : Type 0 where
  pub calls : ℕ
  pub got : List A
  pub queue : List A
  pub asked : ℕ
  pub over : Bool
  pub live : Bool

abbrev pub fresh : {A : Type 0} → Lazy A
fresh = record { calls = 0; got = []; queue = []; asked = 0; over = false; live = true }

-- `emits` is what a call puts into the stream, by its number, and `goes_on` says whether the reader
-- may be entered after it.
module _ {A : Type 0} (emits : ℕ → List A) (goes_on : ℕ → Bool) (capacity : ℕ) (ahead : Bool) where
  infix 40 ◌⟶◌ ◌⟶*◌
  pub data ◌⟶◌ : Lazy A → Lazy A → Type 0 where
    asks :
        (s : Lazy A) → s.live ≡ true → s.asked ≡ length s.got → s ⟶ record s { asked = suc s.asked }
    reads :
        (s : Lazy A)
        → s.over ≡ false
        → length s.queue < capacity
        → (ahead ≡ false → s.calls < s.asked)
        → s ⟶ record s {
          calls = suc s.calls;
          queue = s.queue ++ emits s.calls;
          over = not (goes_on s.calls);
        }
    takes :
        (s : Lazy A) (item : A) (rest : List A)
        → s.live ≡ true
        → s.asked ≡ suc (length s.got)
        → s.queue ≡ item ∷ rest
        → s ⟶ record s { got = s.got ++ item ∷ []; queue = rest }
    leaves : (s : Lazy A) → s.live ≡ true → s ⟶ record s { live = false }
    stops : (s : Lazy A) → s.live ≡ false → s.over ≡ false → s ⟶ record s { over = true }

  pub data ◌⟶*◌ : Lazy A → Lazy A → Type 0 where
    here : {s : Lazy A} → s ⟶* s
    then : {s t u : Lazy A} → s ⟶* t → t ⟶ u → s ⟶* u

  pub join : {s t u : Lazy A} → s ⟶* t → t ⟶* u → s ⟶* u
  join p here = p
  join p (then q e) = then (join p q) e
