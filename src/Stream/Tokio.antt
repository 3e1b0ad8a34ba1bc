-- ===== src/Stream/Tokio.antt =====
-- The two `tokio::sync` primitives the bridge is built on, as interfaces with their documented
-- behaviour, and an implementation of each that shows the laws can hold.
use xorq_datafusion.Common.{
  ℕ, zero, suc, ◌+◌, ◌-◌, ◌≤◌, ◌≡◌, refl, ◌⊎◌, Bool, true, false, ◌&&◌, not, Option, none, some,
  List, [], ◌∷◌, ◌++◌, arith, length, ltb, if◌then◌else◌,
}

-- `try_acquire` fails on an empty semaphore only, and otherwise takes one permit.
abbrev pub Acquires {ℓ} : {S : Type ℓ} → (S → ℕ) → S → Option S → Type 0
Acquires available s none = available s ≡ 0
Acquires available s (some t) = available s ≡ suc (available t)

-- `tokio::sync::Semaphore`. A permit that is dropped comes back by `add_permits`.
pub record Semaphores : Type 1 where
  pub Semaphore : Type 0
  pub new : ℕ → Semaphore
  pub available : Semaphore → ℕ
  pub add_permits : ℕ → Semaphore → Semaphore
  pub try_acquire : Semaphore → Option Semaphore
  pub available-new : (n : ℕ) → available (new n) ≡ n
  pub available-add_permits :
      (n : ℕ) (s : Semaphore) → available (add_permits n s) ≡ available s + n
  pub try_acquire-Acquires : (s : Semaphore) → Acquires available s (try_acquire s)

-- What an observer sees of a bounded channel: the messages not yet received, oldest first, the
-- slots that a permit holds, and whether the receiver is gone.
pub record View (A : Type 0) : Type 0 where
  pub queued : List A
  pub permits : ℕ
  pub closed : Bool

-- `try_reserve_owned` fails exactly on a closed or a full channel, and otherwise holds one slot.
abbrev pub Reserves {ℓ} : {A : Type 0} {C : Type ℓ} → (C → View A) → ℕ → C → Option C → Type 0
Reserves view capacity c none =
    ((view c).closed ≡ true) ⊎ (capacity ≤ length (view c).queued + (view c).permits)
Reserves view capacity c (some d) =
    ((view c).closed ≡ false)
    × (suc (length (view c).queued + (view c).permits) ≤ capacity)
    × ((view d).queued ≡ (view c).queued)
    × ((view d).permits ≡ suc (view c).permits)
    × ((view d).closed ≡ false)

-- `recv` hands over the oldest message, and fails on an empty channel only.
abbrev pub Receives {ℓ} : {A : Type 0} {C : Type ℓ} → (C → View A) → C → Option (A × C) → Type 0
Receives view c none = (view c).queued ≡ []
Receives view c (some (a, d)) =
    ((view c).queued ≡ a ∷ (view d).queued)
    × ((view d).permits ≡ (view c).permits)
    × ((view d).closed ≡ (view c).closed)

-- `tokio::sync::mpsc` over messages in `A`, of a given capacity.
pub record Channels (A : Type 0) (capacity : ℕ) : Type 1 where
  pub Channel : Type 0
  pub view : Channel → View A
  pub new : Channel
  pub try_reserve : Channel → Option Channel
  pub send : A → Channel → Channel
  pub release : Channel → Channel
  pub recv : Channel → Option (A × Channel)
  pub close : Channel → Channel
  pub view-new : view new ≡ record { queued = []; permits = 0; closed = false }
  pub try_reserve-Reserves : (c : Channel) → Reserves view capacity c (try_reserve c)
  pub view-send :
      (a : A) (c : Channel)
      → view (send a c)
        ≡ record (view c) { queued = (view c).queued ++ a ∷ []; permits = (view c).permits - 1 }
  pub view-release :
      (c : Channel) → view (release c) ≡ record (view c) { permits = (view c).permits - 1 }
  pub recv-Receives : (c : Channel) → Receives view c (recv c)
  pub view-close : (c : Channel) → view (close c) ≡ record (view c) { closed = true }

abbrev pub take_permit : ℕ → Option ℕ
take_permit = elim [ zero ↦ none | suc n ↦ some n ]

pub take_permit-Acquires : (n : ℕ) → Acquires (λ k. k) n (take_permit n)
take_permit-Acquires = elim [ zero ↦ refl | suc n ↦ refl ]

abbrev pub counting : Semaphores
counting = record {
  Semaphore = ℕ;
  new = λ n. n;
  available = λ s. s;
  add_permits = λ n s. s + n;
  try_acquire = take_permit;
  available-new = λ n. refl;
  available-add_permits = λ n s. refl;
  try_acquire-Acquires = take_permit-Acquires;
}

module _ {A : Type 0} (capacity : ℕ) where
  abbrev pub list_reserve : View A → Option (View A)
  list_reserve c =
      if not c.closed && ltb (length c.queued + c.permits) capacity
      then some (record c { permits = suc c.permits })
      else none

  pub list_reserve-Reserves : (c : View A) → Reserves (λ v. v) capacity c (list_reserve c)
  list_reserve-Reserves c = ground arith

  abbrev pub list_recv : View A → Option (A × View A)
  list_recv c = elim c.queued [ [] ↦ none | a ∷ rest ↦ some (a, record c { queued = rest }) ]

  pub list_recv-Receives : (c : View A) → Receives (λ v. v) c (list_recv c)
  list_recv-Receives c = ground arith

  abbrev pub queueing : Channels A capacity
  queueing = record {
    Channel = View A;
    view = λ c. c;
    new = record { queued = []; permits = 0; closed = false };
    try_reserve = list_reserve;
    send = λ a c. record c { queued = c.queued ++ a ∷ []; permits = c.permits - 1 };
    release = λ c. record c { permits = c.permits - 1 };
    recv = list_recv;
    close = λ c. record c { closed = true };
    view-new = refl;
    try_reserve-Reserves = list_reserve-Reserves;
    view-send = λ a c. refl;
    view-release = λ c. refl;
    recv-Receives = list_recv-Receives;
    view-close = λ c. refl;
  }
