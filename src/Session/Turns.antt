-- ===== src/Session/Turns.antt =====
-- What the loop makes of each turn, said without its state: the relation that its runs follow.
use mathlib.Core.Path.{subst}
use minirouter.Prelude.{
  ℕ, zero, suc, ◌+◌, ◌%◌, ◌<◌, ◌≡◌, refl, ◌∙◌, Bool, true, false, not, ◌&&◌, ◌||◌, Option, none,
  some, List, [], ◌∷◌, ◌++◌, arith, inl, inr, Text, length, get_elem?, get_or, Option-cases,
  if◌then◌else◌,
}
use minirouter.Prelude.Unicode.{Unicode}
use minirouter.Types.{Role, Task, TurnRecord, is_worker, is_verifier}
use minirouter.Roles.Verifier.{parse_verdict}
use minirouter.Roles.Postprocess.{postprocess, default_max_chars}
use minirouter.Session.{
  Options, Services, ChatResult, Reply, Outcome, returns, pick_agent, turn_record, says_accept,
  transcript_text, take_turn, decided, picked, replied, answer, timed_out, raised,
}

-- Some turn was a Worker's.
abbrev pub has_worker : List TurnRecord → Bool
has_worker [] = false
has_worker (t ∷ ts) = is_worker t.role || has_worker ts

pub has_worker-append :
    (ts : List TurnRecord) (t : TurnRecord)
    → has_worker (ts ++ t ∷ []) ≡ (is_worker t.role || has_worker ts)
has_worker-append [] t = refl
has_worker-append (s ∷ ts) t = ground (arith, has_worker-append ts t)

-- The turn ends the run: it says ACCEPT, and a Worker's turn is there where one is required.
abbrev pub ends : Bool → List TurnRecord → TurnRecord → Bool
ends required before t = says_accept t.verdict && (has_worker (before ++ t ∷ []) || not required)

module _ (u : Unicode) (pool_models : List Text) where
  -- A turn made behind the turns `before`.
  pub record IsTurn (before : List TurnRecord) (t : TurnRecord) : Type 0 where
    pub number : t.turn ≡ length before + 1
    pub agent : (i : ℕ) × (get_elem? pool_models i ≡ some t.agent_name)
    pub output : t.processed_output ≡ postprocess (some t.raw_output) t.role default_max_chars
    pub verdict : t.verdict ≡ (if is_verifier t.role then parse_verdict u t.raw_output else none)

  -- `Run required before left after accepted`: with `left` turns to go.
  pub data Run (required : Bool) : List TurnRecord → ℕ → List TurnRecord → Bool → Type 0 where
    exhausted :
        {before after : List TurnRecord} → after ≡ before → Run required before zero after false
    stopped :
        {before after : List TurnRecord} {left : ℕ} (t : TurnRecord)
        → IsTurn before t
        → ends required before t ≡ true
        → after ≡ before ++ t ∷ []
        → Run required before (suc left) after true
    continued :
        {before after : List TurnRecord} {left : ℕ} {accepted : Bool} (t : TurnRecord)
        → IsTurn before t
        → ends required before t ≡ false
        → Run required (before ++ t ∷ []) left after accepted
        → Run required before (suc left) after accepted

get_or-get_elem? {ℓ} :
    {A : Type ℓ} (xs : List A) (i : ℕ) (d : A)
    → i < length xs
    → get_elem? xs i ≡ some (get_or xs i d)
get_or-get_elem? [] i d h = absurd (omega arith)
get_or-get_elem? (x ∷ xs) zero d h = refl
get_or-get_elem? (x ∷ xs) (suc i) d h = get_or-get_elem? xs i d (omega arith)

pick_agent-listed :
    (ms : List Text) (i : ℕ) {name : Text}
    → pick_agent ms i ≡ some name
    → (j : ℕ) × (get_elem? ms j ≡ some name)
unfolding pick_agent
pick_agent-listed [] i h = cc
pick_agent-listed (m ∷ ms) i h =
    (i % length (m ∷ ms), get_or-get_elem? (m ∷ ms) (i % length (m ∷ ms)) m (omega arith) ∙ h)

turn_record-IsTurn :
    (u : Unicode) (pool_models : List Text) (k : ℕ) (turns : List TurnRecord) (name : Text)
    (role : Role) (res : ChatResult)
    → k ≡ length turns + 1
    → ((i : ℕ) × (get_elem? pool_models i ≡ some name))
    → IsTurn u pool_models turns (turn_record u k name role res)
unfolding turn_record
turn_record-IsTurn u pool_models k turns name role res e listed = record {
  number = e;
  agent = listed;
  output = refl;
  verdict = refl;
}

module _ {W : Type 0} (u : Unicode) (services : Services W) (pool_models : List Text) (o : Options)
    (task : Task) where
  abbrev pub Makes : List TurnRecord → Outcome TurnRecord → Type 0
  Makes turns (returns t) = IsTurn u pool_models turns t
  Makes turns _ = Unit

  replied-Makes :
      (k : ℕ) (turns : List TurnRecord) (name : Text) (role : Role) (r : Reply × W)
      → k ≡ length turns + 1
      → ((i : ℕ) × (get_elem? pool_models i ≡ some name))
      → Makes turns (replied u services pool_models o task k name role r).0
  replied-Makes k turns name role (answer res, w) e listed =
      turn_record-IsTurn u pool_models k turns name role res e listed
  replied-Makes k turns name role (timed_out, w) e listed = tt
  replied-Makes k turns name role (raised m, w) e listed = tt

  picked-Makes :
      (k : ℕ) (turns : List TurnRecord) (role : Role) (i : ℕ) (w : W)
      → k ≡ length turns + 1
      → Makes turns
          (picked u services pool_models o task k turns role (pick_agent pool_models i) w).0
  picked-Makes k turns role i w e = elim (Option-cases (pick_agent pool_models i)) [
    | inl none_left ↦ rw none_left tt
    | inr (name, h) ↦ rw h (replied-Makes k turns name role _ e (pick_agent-listed pool_models i h))
  ]

  decided-Makes :
      (k : ℕ) (turns : List TurnRecord) (d : Option (ℕ × Role) × W)
      → k ≡ length turns + 1
      → Makes turns (decided u services pool_models o task k turns d).0
  decided-Makes k turns (none, w) e = tt
  decided-Makes k turns (some (i, role), w) e = picked-Makes k turns role i w e

  pub take_turn-Makes :
      (k : ℕ) (turns : List TurnRecord) (w : W)
      → k ≡ length turns + 1
      → Makes turns (take_turn u services pool_models o task k turns w).0
  unfolding take_turn
  take_turn-Makes k turns w e =
      decided-Makes k turns (services.decide (transcript_text task turns) o.sample w) e

  -- A turn that the loop appends is one that the relation allows.
  pub take_turn-IsTurn :
      (k : ℕ) (turns : List TurnRecord) (w : W) {t : TurnRecord}
      → k ≡ length turns + 1
      → (take_turn u services pool_models o task k turns w).0 ≡ returns t
      → IsTurn u pool_models turns t
  take_turn-IsTurn k turns w e h = subst (Makes turns) h (take_turn-Makes k turns w e)
