-- ===== src/Validator/Claim/Order.antt =====
-- The order of the jobs is a strict order, and incomparable jobs do not separate others.
use minirouter.Prelude.{◌≡◌, refl, Bool, true, false, ◌||◌, arith, Text, ltb}
use minirouter.Py.{ℤ, pos, negsuc}
use minirouter.Validator.Queue.{JobQueue}
use minirouter.Validator.Claim.{ltz, lex, precedes}

-- A test that is an order: not both ways, and what stands between two is behind the one or in front
-- of the other.
pub record IsOrder {A : Type 0} (before : A → A → Bool) : Type 0 where
  pub asym : (x y : A) → before x y ≡ true → before y x ≡ false
  pub between : (x y z : A) → before x z ≡ true → (before x y || before y z) ≡ true

lex-asym :
    (a b c d : Bool)
    → (a ≡ true → b ≡ false)
    → (b ≡ true → a ≡ false)
    → (c ≡ true → d ≡ false)
    → lex a b c ≡ true
    → lex b a d ≡ false
lex-asym true true c d h k l e = absurd (ground (arith, h refl))
lex-asym true false c d h k l e = refl
lex-asym false true c d h k l e = absurd (ground arith)
lex-asym false false true d h k l e = l refl
lex-asym false false false d h k l e = absurd (ground arith)

ltb-IsOrder : IsOrder ltb
ltb-IsOrder = record { asym = λ x y h. ground arith; between = λ x y z h. ground arith }

ltz-asym : (x y : ℤ) → ltz x y ≡ true → ltz y x ≡ false
unfolding ltz
ltz-asym (pos m) (pos n) h = ground arith
ltz-asym (pos m) (negsuc n) h = ground arith
ltz-asym (negsuc m) (pos n) h = refl
ltz-asym (negsuc m) (negsuc n) h = ground arith

ltz-between : (x y z : ℤ) → ltz x z ≡ true → (ltz x y || ltz y z) ≡ true
unfolding ltz
ltz-between (pos m) (pos k) (pos n) h = ground arith
ltz-between (pos m) (negsuc k) (pos n) h = ground arith
ltz-between (pos m) y (negsuc n) h = absurd (ground arith)
ltz-between (negsuc m) (pos k) (pos n) h = refl
ltz-between (negsuc m) (negsuc k) (pos n) h = ground arith
ltz-between (negsuc m) (pos k) (negsuc n) h = refl
ltz-between (negsuc m) (negsuc k) (negsuc n) h = ground arith

-- An order refined by a second one, where the first has neither in front.
lex-IsOrder :
    {A : Type 0} (p q : A → A → Bool)
    → IsOrder p
    → IsOrder q
    → IsOrder (λ x y. lex (p x y) (p y x) (q x y))
lex-IsOrder p q hp hq = record {
  asym =
      λ x y e. lex-asym (p x y) (p y x) (q x y) (q y x) (hp.asym x y) (hp.asym y x) (hq.asym x y) e;
  between = λ x y z e. grind (
    arith,
    hp.between x y z,
    hp.between y z x,
    hp.between z x y,
    hq.between x y z,
    hp.asym x y,
    hp.asym y x,
  );
}

priority-IsOrder : IsOrder (λ (a b : JobQueue). ltz b.priority a.priority)
priority-IsOrder = record {
  asym = λ x y h. ltz-asym y.priority x.priority h;
  between = λ x y z h. ground (arith, ltz-between z.priority y.priority x.priority h);
}

created-IsOrder : IsOrder (λ (a b : JobQueue). ltb a.created_at b.created_at)
created-IsOrder = record {
  asym = λ x y h. ltb-IsOrder.asym x.created_at y.created_at h;
  between = λ x y z h. ltb-IsOrder.between x.created_at y.created_at z.created_at h;
}

module _ (id_before : Text → Text → Bool) (h : IsOrder id_before) where
  id-IsOrder : IsOrder (λ (a b : JobQueue). id_before a.id b.id)
  id-IsOrder = record {
    asym = λ x y e. h.asym x.id y.id e;
    between = λ x y z e. h.between x.id y.id z.id e;
  }

  pub precedes-IsOrder : IsOrder (precedes id_before)
  unfolding precedes
  precedes-IsOrder =
      lex-IsOrder (λ (a b : JobQueue). ltz b.priority a.priority)
        (λ (a b : JobQueue).
          lex (ltb a.created_at b.created_at) (ltb b.created_at a.created_at) (id_before a.id b.id))
        priority-IsOrder
        (lex-IsOrder (λ (a b : JobQueue). ltb a.created_at b.created_at)
          (λ (a b : JobQueue). id_before a.id b.id) created-IsOrder id-IsOrder)
