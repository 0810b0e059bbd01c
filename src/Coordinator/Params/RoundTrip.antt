-- ===== src/Coordinator/Params/RoundTrip.antt =====
-- Packing and unpacking undo each other, and when unpacking fails.
use mathlib.Core.List.{map-append}
use minirouter.Prelude.{
  ℕ, zero, suc, ◌+◌, ◌*◌, ◌≡◌, refl, sym, ap, ◌∙◌, List, [], ◌∷◌, ◌++◌, map, arith, length, take,
  drop, replicate, length-replicate, length-append, length-take, length-drop, take-append-drop,
}
use minirouter.Coordinator.Params.{
  returns, ParamSpec, post_init, make_spec, Array, pack, unpack, reshaped, initial_theta,
}

-- The layouts that `make_spec` gives, and the ones that `__post_init__` lets pass.
pub record IsSpec (spec : ParamSpec) : Type 0 where
  pub head : spec.n_head ≡ spec.n_a * spec.d_h
  pub total : spec.n_total ≡ spec.n_head + spec.n_svf

-- A 2-D array of the head's shape, and a 1-D array of scales.
pub record IsHead {A : Type 0} (spec : ParamSpec) (w : Array A) : Type 0 where
  pub shape : w.shape ≡ spec.n_a ∷ spec.d_h ∷ []
  pub size : length w.items ≡ spec.n_a * spec.d_h

pub record IsScales {A : Type 0} (spec : ParamSpec) (s : Array A) : Type 0 where
  pub shape : s.shape ≡ spec.n_svf ∷ []
  pub size : length s.items ≡ spec.n_svf

-- Every layout that `make_spec` builds passes the checks of `ParamSpec`, and is the asked one.
pub make_spec-IsSpec :
    (n_a d_h n_svf : ℕ)
    → (spec : ParamSpec) × (make_spec n_a d_h n_svf ≡ returns spec)
      × IsSpec spec
      × (spec.n_a ≡ n_a)
      × (spec.d_h ≡ d_h)
      × (spec.n_svf ≡ n_svf)
unfolding make_spec post_init
make_spec-IsSpec n_a d_h n_svf =
    (_, ground arith, record { head = refl; total = refl }, refl, refl, refl)

length-map {ℓ κ} :
    {A : Type ℓ} {B : Type κ} (f : A → B) (xs : List A) → length (map f xs) ≡ length xs
length-map f [] = refl
length-map f (x ∷ xs) = ap suc (length-map f xs)

drop-length {ℓ} : {A : Type ℓ} (xs ys : List A) → drop (length xs) (xs ++ ys) ≡ ys
drop-length [] ys = refl
drop-length (x ∷ xs) ys = drop-length xs ys

take-length {ℓ} : {A : Type ℓ} (xs ys : List A) → take (length xs) (xs ++ ys) ≡ xs
take-length [] ys = refl
take-length (x ∷ xs) ys = ap (λ zs. x ∷ zs) (take-length xs ys)

-- The array with each element converted.
abbrev pub converted : {A : Type 0} → (A → A) → Array A → Array A
converted f x = record { shape = x.shape; items = map f x.items }

module _ {A : Type 0} (float64 : A → A) (zero_f one_f : A) where
  map_again :
      ((x : A) → float64 (float64 x) ≡ float64 x)
      → (xs : List A) → map float64 (map float64 xs) ≡ map float64 xs
  map_again h [] = refl
  map_again h (x ∷ xs) = cc (h x, map_again h xs)

  unpack_flat :
      (spec : ParamSpec) (front back : List A)
      → IsSpec spec
      → length front ≡ spec.n_head
      → length back ≡ spec.n_svf
      → reshaped float64 zero_f one_f spec
          (take spec.n_head (front ++ back))
          (drop spec.n_head (front ++ back))
        ≡ returns (
          record { shape = spec.n_a ∷ spec.d_h ∷ []; items = front },
          record { shape = spec.n_svf ∷ []; items = back },
        )
  unpack_flat spec front back h lf lb =
      let e : length front ≡ spec.n_a * spec.d_h = lf ∙ h.head in
      rw (← lf, take-length front back, drop-length front back, lb) (ground (arith, e))

  packed :
      (w s : Array A) (n_a d_h n_svf : ℕ)
      → w.shape ≡ n_a ∷ d_h ∷ []
      → s.shape ≡ n_svf ∷ []
      → pack float64 zero_f one_f w s
        ≡ returns (record {
          shape = length (map float64 w.items ++ map float64 s.items) ∷ [];
          items = map float64 w.items ++ map float64 s.items;
        })
  unfolding pack
  packed w s n_a d_h n_svf hw hs = rw (hw, hs)

  unpacked :
      (theta : Array A) (spec : ParamSpec)
      → length theta.items ≡ spec.n_total
      → unpack float64 zero_f one_f theta spec
        ≡ reshaped float64 zero_f one_f spec
            (take spec.n_head (map float64 theta.items))
            (drop spec.n_head (map float64 theta.items))
  unfolding unpack
  unpacked theta spec h =
      let e : length (map float64 theta.items) ≡ spec.n_total =
        length-map float64 theta.items ∙ h in
      ground (arith, e)

  -- Packing a head and scales of a valid layout gives a vector of n_total elements, and unpacking
  -- that gives the head and the scales back, converted to float64 (which is idempotent).
  pub unpack-pack :
      (spec : ParamSpec) (w s : Array A)
      → IsSpec spec
      → IsHead spec w
      → IsScales spec s
      → ((x : A) → float64 (float64 x) ≡ float64 x)
      → (theta : Array A) × (pack float64 zero_f one_f w s ≡ returns theta)
        × (length theta.items ≡ spec.n_total)
        × (unpack float64 zero_f one_f theta spec
            ≡ returns (converted float64 w, converted float64 s))
  unpack-pack spec w s h hw hs again =
      let front = map float64 w.items in
      let back = map float64 s.items in
      let lf : length front ≡ spec.n_head = length-map float64 w.items ∙ hw.size ∙ sym h.head in
      let lb : length back ≡ spec.n_svf = length-map float64 s.items ∙ hs.size in
      let size : length (front ++ back) ≡ spec.n_total =
        length-append front back ∙ omega (arith, lf, lb, h.total) in
      (
        record { shape = length (front ++ back) ∷ []; items = front ++ back },
        packed w s spec.n_a spec.d_h spec.n_svf hw.shape hs.shape,
        size,
        unpacked (record { shape = length (front ++ back) ∷ []; items = front ++ back }) spec size
            ∙ rw (map-append float64 front back, map_again again w.items, map_again again s.items)
                (unpack_flat spec front back h lf lb ∙ rw (hw.shape, hs.shape)),
      )

  -- Unpacking any vector of n_total elements under a valid layout succeeds, and packing the two
  -- parts gives the vector back, flat and converted to float64.
  pub pack-unpack :
      (spec : ParamSpec) (theta : Array A)
      → IsSpec spec
      → length theta.items ≡ spec.n_total
      → ((x : A) → float64 (float64 x) ≡ float64 x)
      → (w : Array A) × (s : Array A) × (unpack float64 zero_f one_f theta spec ≡ returns (w, s))
        × (pack float64 zero_f one_f w s
            ≡ returns (record { shape = length theta.items ∷ []; items = map float64 theta.items }))
  pack-unpack spec theta h l again =
      let flat = map float64 theta.items in
      let front = take spec.n_head flat in
      let back = drop spec.n_head flat in
      let size = length-map float64 theta.items in
      let lf : length front ≡ spec.n_head =
        length-take spec.n_head flat ∙ omega (arith, size, l, h.total) in
      let lb : length back ≡ spec.n_svf =
        length-drop spec.n_head flat ∙ omega (arith, size, l, h.total) in
      let joined : map float64 front ++ map float64 back ≡ flat =
        sym (map-append float64 front back)
        ∙ ap (map float64) (take-append-drop spec.n_head flat)
        ∙ map_again again theta.items in
      (
        record { shape = spec.n_a ∷ spec.d_h ∷ []; items = front },
        record { shape = spec.n_svf ∷ []; items = back },
        unpacked theta spec l
            ∙ rw (take-append-drop spec.n_head flat) at (unpack_flat spec front back h lf lb),
        packed (record { shape = spec.n_a ∷ spec.d_h ∷ []; items = front })
              (record { shape = spec.n_svf ∷ []; items = back }) spec.n_a spec.d_h spec.n_svf refl
              refl
            ∙ rw (joined, size),
      )

  -- The initial vector unpacks into a head of zeros and scales of ones, where these two are
  -- float64 values.
  pub unpack-initial_theta :
      (spec : ParamSpec)
      → IsSpec spec
      → ((x : A) → float64 (float64 x) ≡ float64 x)
      → float64 zero_f ≡ zero_f
      → float64 one_f ≡ one_f
      → (theta : Array A) × (initial_theta float64 zero_f one_f spec ≡ returns theta)
        × (unpack float64 zero_f one_f theta spec
            ≡ returns (
              record {
                shape = spec.n_a ∷ spec.d_h ∷ [];
                items = replicate (spec.n_a * spec.d_h) zero_f;
              },
              record { shape = spec.n_svf ∷ []; items = replicate spec.n_svf one_f },
            ))
  unfolding initial_theta
  unpack-initial_theta spec h again hz ho =
      let w : Array A = record {
        shape = spec.n_a ∷ spec.d_h ∷ [];
        items = replicate (spec.n_a * spec.d_h) zero_f;
      } in
      let s : Array A = record { shape = spec.n_svf ∷ []; items = replicate spec.n_svf one_f } in
      let (theta, made, size, back) =
        unpack-pack spec w s h
          (record { shape = refl; size = length-replicate (spec.n_a * spec.d_h) zero_f })
          (record { shape = refl; size = length-replicate spec.n_svf one_f }) again in
      (
        theta,
        made,
        back
            ∙ rw (
              map-replicate (spec.n_a * spec.d_h) zero_f,
              map-replicate spec.n_svf one_f,
              hz,
              ho,
            ),
      )
    where
      map-replicate : (n : ℕ) (x : A) → map float64 (replicate n x) ≡ replicate n (float64 x)
      map-replicate zero x = refl
      map-replicate (suc n) x = ap (λ xs. float64 x ∷ xs) (map-replicate n x)
