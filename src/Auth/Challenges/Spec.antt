-- ===== src/Auth/Challenges/Spec.antt =====
-- What the store of challenges promises: a map from keys to challenges that expire.
use guardian_wallet.Prelude.{
  ℕ, ◌≤◌, ◌≡◌, Option, none, some, List, [], ◌∷◌, if◌then◌else◌, Text, text_eq, truthy, length,
}
use guardian_wallet.Prelude.Dict.{lookup, HasUniqueKeys}
use guardian_wallet.Prelude.Effects.{Result, ok, throws}
use guardian_wallet.Auth.Challenges.{
  ChallengeEntry, ChallengeStoreOptions, Store, set, get, consume,
}
use guardian_wallet.Auth.Challenges.Use.{kept, challenge_of}

-- A call, with its two readings of the clock.
pub data Call : Type 0 where
  setting : (key challenge : Text) (now later : ℕ) → Call
  getting consuming : (key : Text) (now later : ℕ) → Call

pub data Answer : Type 0 where
  full stored : Answer
  found : Option Text → Answer

-- What the store promises: a map from keys to the last challenge, without a bound and without a clean-up.
abbrev pub Spec : Type 0
Spec = Text → Option ChallengeEntry

abbrev pub assign : Text → Option ChallengeEntry → Spec → Spec
assign key entry spec k = if text_eq key k then entry else spec k

abbrev pub take_if : Text → Option Text → Spec → Spec
take_if key none spec = spec
take_if key (some c) spec = assign key none spec

abbrev pub opened : Call → ℕ
opened (setting key challenge now later) = now
opened (getting key now later) = now
opened (consuming key now later) = now

abbrev pub closed : Call → ℕ
closed (setting key challenge now later) = later
closed (getting key now later) = later
closed (consuming key now later) = later

module _ (options : ChallengeStoreOptions) where
  abbrev pub visible : ℕ → Option ChallengeEntry → Option Text
  visible now entry = challenge_of options (kept options now entry)

  -- As many challenges as allowed are stored and not stale, each under a key of its own.
  pub record IsFull (now : ℕ) (spec : Spec) : Type 0 where
    pub entries : Store
    pub unique : HasUniqueKeys entries
    pub enough : options.max_challenges ≤ length entries
    pub all_kept :
        (key : Text) (entry : ChallengeEntry)
        → lookup key entries ≡ some entry
        → kept options now (spec key) ≡ some entry

  -- One call on the map: a challenge is refused only if the map is full; what is read is what was stored and is not stale.
  pub data Allows : Call → Spec → Answer → Spec → Type 0 where
    refused :
        {spec : Spec} (key challenge : Text) (now later : ℕ)
        → IsFull now spec
        → Allows (setting key challenge now later) spec full spec
    accepted :
        {spec : Spec} (key challenge : Text) (now later : ℕ)
        → Allows
            (setting key challenge now later)
            spec
            stored
            (assign key (some (record { challenge = challenge; created_at = later })) spec)
    read :
        {spec : Spec} (key : Text) (now later : ℕ)
        → Allows (getting key now later) spec (found (visible later (spec key))) spec
    used :
        {spec : Spec} (key : Text) (now later : ℕ)
        → Allows
            (consuming key now later)
            spec
            (found (visible later (spec key)))
            (take_if key (truthy (visible later (spec key))) spec)

  abbrev pub answer_of : Result (Unit {0}) × Store → Answer × Store
  answer_of (ok u, store) = (stored, store)
  answer_of (throws e, store) = (full, store)

  abbrev pub found_in : Option Text × Store → Answer × Store
  found_in (c, store) = (found c, store)

  abbrev pub perform : Call → Store → Answer × Store
  perform (setting key challenge now later) store =
      answer_of (set options key challenge now later store)
  perform (getting key now later) store = found_in (get options key now later store)
  perform (consuming key now later) store = found_in (consume options key now later store)

  -- From a time on the store and the map cannot be told apart.
  pub record Agrees (time : ℕ) (store : Store) (spec : Spec) : Type 0 where
    pub unique : HasUniqueKeys store
    pub same :
        (key : Text) (t : ℕ)
        → time ≤ t
        → kept options t (lookup key store) ≡ kept options t (spec key)

  -- What the call answers and leaves is what it may answer and leave on the map.
  abbrev pub Refines : Call → Answer × Store → Spec → Type 0
  Refines call p spec = (spec' : Spec) × Allows call spec p.0 spec' × Agrees (closed call) p.1 spec'

  -- The calls one after the other, as the clock runs.
  abbrev pub InOrder : ℕ → List Call → Type 0
  InOrder time [] = Unit
  InOrder time (call ∷ calls) =
      (time ≤ opened call) × (opened call ≤ closed call) × InOrder (closed call) calls

  abbrev pub answers : List Call → Store → List Answer
  answers [] store = []
  answers (call ∷ calls) store = (perform call store).0 ∷ answers calls (perform call store).1

  pub data AllowsAll : List Call → Spec → List Answer → Type 0 where
    none_left : {spec : Spec} → AllowsAll [] spec []
    then_all :
        {call : Call} {calls : List Call} {spec spec' : Spec} {answer : Answer} {rest : List Answer}
        → Allows call spec answer spec'
        → AllowsAll calls spec' rest
        → AllowsAll (call ∷ calls) spec (answer ∷ rest)
