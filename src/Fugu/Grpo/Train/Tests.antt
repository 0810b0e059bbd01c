-- ===== src/Fugu/Grpo/Train/Tests.antt =====
-- A training loop on two tasks, whose world counts the updates and those on a group of another size.
use minirouter.Prelude.{ℕ, ◌+◌, ◌≡◌, refl, ◌==◌, List, [], ◌∷◌, length, if◌then◌else◌, arith}
use minirouter.Types.{Task}
use minirouter.Fugu.Execute.State.{WorkflowRun}
use minirouter.Fugu.Execute.Loop.{Outcome, returns}
use minirouter.Fugu.Reward.{training_reward, is_correct}
use minirouter.Fugu.Grpo.{GroupResult}
use minirouter.Fugu.Grpo.Tests.{units, never, rejected, task, meter}
use minirouter.Fugu.Grpo.Train.{Rates, Config, train}
use minirouter.Fugu.Grpo.Train.Batches.{AreWhole, no_group, group, Lasts, train-kept}

abbrev World : Type 0
World = ℕ × ℕ

abbrev rollout : Task → World → Outcome WorkflowRun × World
rollout t w = (returns rejected, w)

abbrev odd_groups : List GroupResult → ℕ
odd_groups [] = 0
odd_groups (g ∷ gs) = let n = odd_groups gs in if length g.runs == 2 then n else n + 1

abbrev update : List GroupResult → World → ℕ × World
update gs w = (w.0, (w.0 + 1, w.1 + odd_groups gs))

abbrev rates : Rates ℕ
rates = record { nil_rate = 0; ratio = λ a b. a; of_reward = λ r. 0; mean = λ x xs. x }

abbrev cfg : Config
cfg = record { group_size = 2; iterations = 3; questions_per_iter = 2 }

abbrev AllEven : World → Type 0
AllEven w = w.1 ≡ 0

AreWhole-odd_groups : {gs : List GroupResult} → AreWhole 2 gs → odd_groups gs ≡ 0
AreWhole-odd_groups no_group = refl
AreWhole-odd_groups (group e h) = rw (e, AreWhole-odd_groups h) refl

updates_counted :
    (train units never rollout rates update cfg (task ∷ task ∷ []) (meter 0) (0, 0)).1 ≡ (3, 0)
unfolding train training_reward is_correct
updates_counted = refl

-- The second iteration crosses the cap in its first group, and its batch is not used.
capped :
    (train units never rollout rates update cfg (task ∷ task ∷ []) (meter 24) (0, 0)).1 ≡ (1, 0)
unfolding train training_reward is_correct
capped = refl

train-kept_example :
    Lasts units never rollout AllEven
      (λ t w h. h)
      3
      (train units never rollout rates update cfg (task ∷ task ∷ []) (meter 24) (0, 0)).0
    × AllEven (train units never rollout rates update cfg (task ∷ task ∷ []) (meter 24) (0, 0)).1
train-kept_example =
    train-kept units never rollout AllEven (λ t w h. h) rates update cfg
      (λ gs w h c e. omega (arith, AreWhole-odd_groups h)) task (task ∷ []) (meter 24) (0, 0) refl
