-- ===== src/Fugu/Grpo/Train/Batches.antt =====
-- The policy is updated on whole batches only, and how long the history is.
use minirouter.Prelude.{
  ℕ, zero, suc, ◌+◌, ◌%◌, ◌≤◌, ◌≡◌, refl, ap, Bool, true, false, inl, inr, ◌⊎◌, List, [], ◌∷◌, ◌++◌,
  length, length-append, if◌then◌else◌, arith,
}
use minirouter.Types.{Task}
use minirouter.Fugu.Execute.State.{WorkflowRun}
use minirouter.Fugu.Execute.Loop.{Outcome, returns, call_failed, no_model, gate_raised}
use minirouter.Fugu.Reward.{Grader, Reward, training_reward}
use minirouter.Fugu.Grpo.{
  Money, CostMeter, GroupResult, Collected, collected, cost_cap_exceeded, rollout_failed, add_run,
  metered, collect_rest, collect_group,
}
use minirouter.Fugu.Grpo.Cap.{collect_group-IsGroup, collect_group-IsCapped}
use minirouter.Fugu.Grpo.Train.{
  Rates, Config, Entry, Trained, trained, failed, aborted_cost, Groups, all_collected, over_cap,
  broke, entry_of, finish, batch_from, then_groups, collect_groups, then_update, train_rest, train,
}

-- Groups of so many runs each.
pub data AreWhole (size : ℕ) : List GroupResult → Type 0 where
  no_group : AreWhole size []
  group :
      {g : GroupResult} {gs : List GroupResult}
      → length g.runs ≡ size
      → AreWhole size gs
      → AreWhole size (g ∷ gs)

AreWhole-append :
    {size : ℕ} {gs : List GroupResult} (g : GroupResult)
    → AreWhole size gs
    → length g.runs ≡ size
    → AreWhole size (gs ++ g ∷ [])
AreWhole-append g no_group h = group h no_group
AreWhole-append g (group k ks) h = group k (AreWhole-append g ks h)

length-batch_from :
    (first : Task) (tasks : List Task) (cursor k j : ℕ)
    → length (batch_from first tasks cursor k j) ≡ k
unfolding batch_from
length-batch_from first tasks cursor zero j = refl
length-batch_from first tasks cursor (suc k) j =
    ap suc (length-batch_from first tasks cursor k (j + 1))

module _ {M W : Type 0} (money : Money M) (grader : Grader)
    (rollout : Task → W → Outcome WorkflowRun × W) (P : W → Type 0)
    (rolled : (task : Task) (w : W) → P w → P (rollout task w).1) where
  if-kept : {A : Type 0} (b : Bool) (x y : A × W) → P x.1 → P y.1 → P (if b then x else y).1
  if-kept true x y p q = p
  if-kept false x y p q = q

  collect_rest-kept :
      (task : Task) (left : ℕ) (runs : List WorkflowRun) (rewards : List Reward)
      (meter : CostMeter M) (w : W)
      → P w
      → P (collect_rest money grader (rollout task) task left runs rewards meter w).1
  unfolding collect_rest
  collect_rest-kept task zero runs rewards meter w p = p
  collect_rest-kept task (suc left) runs rewards meter w p =
      go (rollout task w)
        (λ runs' rewards' meter' w'.
          collect_rest money grader (rollout task) task left runs' rewards' meter' w')
        (λ runs' rewards' meter' w' q. collect_rest-kept task left runs' rewards' meter' w' q)
        (rolled task w p)
    where
      go :
          (o : Outcome WorkflowRun × W)
          (rest : List WorkflowRun → List Reward → CostMeter M → W → Collected M × W)
          → ((rs : List WorkflowRun) (ws : List Reward) (m : CostMeter M) (v : W)
              → P v
              → P (rest rs ws m v).1)
          → P o.1
          → P (metered money grader (rollout task) task runs rewards meter rest o).1
      go (returns run, v) rest k q =
          let runs' = runs ++ run ∷ [] in
          let rewards' = rewards ++ training_reward grader run task ∷ [] in
          let meter' = add_run money run meter in
          if-kept meter'.aborted (cost_cap_exceeded meter', v) (rest runs' rewards' meter' v) q
            (k runs' rewards' meter' v q)
      go (call_failed, v) rest k q = q
      go (no_model, v) rest k q = q
      go (gate_raised, v) rest k q = q

  collect_group-kept :
      (task : Task) (size : ℕ) (meter : CostMeter M) (w : W)
      → P w
      → P (collect_group money grader (rollout task) task size meter w).1
  unfolding collect_group
  collect_group-kept task size meter w p = collect_rest-kept task size [] [] meter w p

  -- The groups that are collected are whole, and as many as the questions.
  abbrev Batch : ℕ → ℕ → Groups M → Type 0
  Batch size count (all_collected gs meter) = AreWhole size gs × (length gs ≡ count)
  Batch size count (over_cap meter) = meter.aborted ≡ true
  Batch size count broke = Unit

  collect_groups-kept :
      (size count : ℕ) (tasks : List Task) (groups : List GroupResult) (meter : CostMeter M) (w : W)
      → AreWhole size groups
      → length groups + length tasks ≡ count
      → P w
      → Batch size count (collect_groups money grader rollout size tasks groups meter w).0
        × P (collect_groups money grader rollout size tasks groups meter w).1
  unfolding collect_groups
  collect_groups-kept size count [] groups meter w h c p = ((h, omega arith), p)
  collect_groups-kept size count (task ∷ tasks) groups meter w h c p =
      go (collect_group money grader (rollout task) task size meter w)
        (λ res m e. (collect_group-IsGroup money grader (rollout task) task size meter w e).whole)
        (λ m e. (collect_group-IsCapped money grader (rollout task) task size meter w e).crossed)
        (collect_group-kept task size meter w p)
        (λ g m v k q.
          collect_groups-kept size count tasks (groups ++ g ∷ []) m v (AreWhole-append g h k)
            (omega (arith, c, length-append groups (g ∷ []))) q)
    where
      rest : List GroupResult → CostMeter M → W → Groups M × W
      rest groups' meter' w' = collect_groups money grader rollout size tasks groups' meter' w'

      go :
          (o : Collected M × W)
          → ((res : GroupResult) (m : CostMeter M) → o.0 ≡ collected res m → length res.runs ≡ size)
          → ((m : CostMeter M) → o.0 ≡ cost_cap_exceeded m → m.aborted ≡ true)
          → P o.1
          → ((g : GroupResult) (m : CostMeter M) (v : W)
              → length g.runs ≡ size
              → P v
              → Batch size count (rest (groups ++ g ∷ []) m v).0
                × P (rest (groups ++ g ∷ []) m v).1)
          → Batch size count (then_groups money grader rollout groups rest o).0
            × P (then_groups money grader rollout groups rest o).1
      go (collected g m, v) whole capped q k = k g m v (whole g m refl) q
      go (cost_cap_exceeded m, v) whole capped q k = (capped m refl, q)
      go (rollout_failed, v) whole capped q k = (tt, q)

  -- At most `n` records; fewer only where the meter was aborted.
  abbrev pub Lasts : {F S : Type 0} → ℕ → Trained M F S → Type 0
  Lasts n (trained s) = (length s.history ≤ n) × ((length s.history ≡ n) ⊎ (s.meter.aborted ≡ true))
  Lasts n failed = Unit

  module _ {F S : Type 0} (rates : Rates F) (update : List GroupResult → W → S × W) (cfg : Config)
      (updated : (groups : List GroupResult) (w : W)
        → AreWhole cfg.group_size groups
        → length groups ≡ cfg.questions_per_iter
        → P w
        → P (update groups w).1) where
    if-Lasts :
        (n : ℕ) (b : Bool) (x y : Trained M F S × W)
        → (b ≡ true → Lasts n x.0 × P x.1)
        → (b ≡ false → Lasts n y.0 × P y.1)
        → Lasts n (if b then x else y).0 × P (if b then x else y).1
    if-Lasts n true x y p q = p refl
    if-Lasts n false x y p q = q refl

    -- the history with one record more
    length-snoc :
        (history : List (Entry M F S)) (e : Entry M F S)
        → length (history ++ e ∷ []) ≡ length history + 1
    length-snoc history e = length-append history (e ∷ [])

    train_rest-kept :
        (n : ℕ) (first : Task) (tasks : List Task) (left it cursor : ℕ)
        (history : List (Entry M F S)) (meter : CostMeter M) (w : W)
        → length history + left ≡ n
        → P w
        → Lasts n
            (train_rest money grader rollout rates update cfg first tasks left it cursor history
              meter w).0
          × P
              (train_rest money grader rollout rates update cfg first tasks left it cursor history
                meter w).1
    unfolding train_rest
    train_rest-kept n first tasks zero it cursor history meter w c p =
        ((omega arith, inl (omega arith)), p)
    train_rest-kept n first tasks (suc left) it cursor history meter w c p =
        let batch = batch_from first tasks cursor cfg.questions_per_iter 0 in
        let (found, q) =
          collect_groups-kept cfg.group_size cfg.questions_per_iter batch [] meter w no_group
            (omega (arith, length-batch_from first tasks cursor cfg.questions_per_iter 0)) p in
        go (collect_groups money grader rollout cfg.group_size batch [] meter w) found q
          (λ h m v e k.
            train_rest-kept n first tasks left (it + 1)
              ((cursor + cfg.questions_per_iter) % length tasks) h m v (omega arith) k)
      where
        rest : List (Entry M F S) → CostMeter M → W → Trained M F S × W
        rest h m v =
            train_rest money grader rollout rates update cfg first tasks left (it + 1)
              ((cursor + cfg.questions_per_iter) % length tasks) h m v

        go :
            (o : Groups M × W)
            → Batch cfg.group_size cfg.questions_per_iter o.0
            → P o.1
            → ((h : List (Entry M F S)) (m : CostMeter M) (v : W)
                → length h ≡ length history + 1
                → P v
                → Lasts n (rest h m v).0 × P (rest h m v).1)
            → Lasts n (then_update money grader rollout rates update it history rest o).0
              × P (then_update money grader rollout rates update it history rest o).1
        go (all_collected groups m, v) (whole, count) q k =
            let stats = (update groups v).0 in
            let v' = (update groups v).1 in
            let history' = history ++ entry_of rates it groups m stats ∷ [] in
            let longer = length-snoc history (entry_of rates it groups m stats) in
            let kept = updated groups v whole count q in
            if-Lasts n m.aborted (finish rates history' m, v') (rest history' m v')
              (λ e. ((omega arith, inr e), kept)) (λ e. k history' m v' longer kept)
        go (over_cap m, v) capped q k =
            let longer = length-snoc history (aborted_cost it) in ((omega arith, inr capped), q)
        go (broke, v) found q k = (tt, q)

    -- The training loop ends with at most as many records as iterations, and with fewer only where
    -- the meter was aborted; tasks there must be. It updates the policy on whole batches only: what
    -- every rollout keeps, and every update on a group per question, each of the configured size,
    -- is kept by the whole loop, whether it ends, is stopped by the cap, or breaks.
    pub train-kept :
        (task : Task) (tasks : List Task) (meter : CostMeter M) (w : W)
        → P w
        → Lasts cfg.iterations
            (train money grader rollout rates update cfg (task ∷ tasks) meter w).0
          × P (train money grader rollout rates update cfg (task ∷ tasks) meter w).1
    unfolding train
    train-kept task tasks meter w p =
        train_rest-kept cfg.iterations task (task ∷ tasks) cfg.iterations 0 0 [] meter w
          (omega arith) p
