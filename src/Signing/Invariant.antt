-- ===== src/Signing/Invariant.antt =====
-- The invariant of the signing service: the key material in memory is exactly that of the sessions in
-- the table, and every handler keeps it so, whatever the replies are.
pub mod Steps
pub mod Handlers
pub mod Openings
pub mod Starts
use guardian_wallet.Prelude.{ℕ, ◌<◌, ◌≤◌, ◌≡◌, Option, none, Text, All, length}
use guardian_wallet.Prelude.Dict.{lookup, HasUniqueKeys}
use guardian_wallet.Prelude.Effects.{M}
use guardian_wallet.Signing.Types.{Service, max_concurrent_sessions}
use guardian_wallet.Signing.Buffers.{buffers, IsDistinct}

module _ {F : Type 0} where
  -- The buffers that hold key material are those of the sessions, in their order, and none is shared;
  -- the table has no key twice and no more sessions than allowed.
  pub record IsSound (s : Service F) : Type 0 where
    pub keys : HasUniqueKeys s.sessions
    pub live : s.live_buffers ≡ buffers s.sessions
    pub distinct : IsDistinct (buffers s.sessions)
    pub fresh : All (λ n. n < s.next_buffer) (buffers s.sessions)
    pub bounded : length s.sessions ≤ max_concurrent_sessions

  -- Sound, with a key that no session has, and room for one more session.
  pub record HasRoom (id : Text) (s : Service F) : Type 0 where
    pub sound : IsSound s
    pub unused : lookup id s.sessions ≡ none
    pub room : length s.sessions < max_concurrent_sessions

  -- From a state with `P` the handler ends in one with `Q`, whether it returns or throws.
  pub record Ensures (P Q : Service F → Type 0) {A : Type 0} (m : M (Service F) A) : Type 0 where
    pub ensures : (s : Service F) → P s → Q (m s).1
