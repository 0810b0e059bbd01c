-- ===== src/Coordinator/Params.antt =====
-- src/trinity/coordinator/params.py: the layout of the flat vector, and packing. An array is its
-- shape and its elements in row-major order. The elements stay abstract: `float64` is the conversion
-- of an element to that type, and `zero_f` and `one_f` are 0.0 and 1.0.
pub mod RoundTrip
mod Tests
use minirouter.Prelude.{
  ℕ, zero, suc, ◌+◌, ◌*◌, Bool, true, false, not, ◌||◌, List, [], ◌∷◌, ◌++◌, map, length, take,
  drop, replicate, ◌==◌, if◌then◌else◌,
}

-- `returns`, or the `ValueError` that a check raises
pub data Checked {ℓ} (A : Type ℓ) : Type ℓ where
  returns : A → Checked A
  value_error : Checked A

pub record ParamSpec : Type 0 where
  pub n_a : ℕ
  pub d_h : ℕ
  pub n_head : ℕ
  pub n_svf : ℕ
  pub n_total : ℕ

-- `__post_init__`
unfoldable pub post_init : ParamSpec → Checked ParamSpec
post_init spec =
    if not (spec.n_head == spec.n_a * spec.d_h)
    then value_error
    else if not (spec.n_total == spec.n_head + spec.n_svf)
    then value_error
    else returns spec

unfoldable pub make_spec : ℕ → ℕ → ℕ → Checked ParamSpec
unfolding post_init
make_spec n_a d_h n_svf =
    let n_head = n_a * d_h in
    post_init
      (record { n_a = n_a; d_h = d_h; n_head = n_head; n_svf = n_svf; n_total = n_head + n_svf })

pub record Array (A : Type 0) : Type 0 where
  pub shape : List ℕ
  pub items : List A

abbrev pub ndim : {A : Type 0} → Array A → ℕ
ndim x = length x.shape

module _ {A : Type 0} (float64 : A → A) (zero_f one_f : A) where
  unfoldable pub pack : Array A → Array A → Checked (Array A)
  pack head_w svf_scales =
      if not (ndim head_w == 2)
      then value_error
      else if not (ndim svf_scales == 1)
      then value_error
      else (let flat = map float64 head_w.items ++ map float64 svf_scales.items in
          returns (record { shape = length flat ∷ []; items = flat }))

  -- `head_flat.reshape(spec.head_shape)`, which raises where the sizes differ
  abbrev reshaped : ParamSpec → List A → List A → Checked (Array A × Array A)
  reshaped spec head_flat svf_flat =
      if length head_flat == spec.n_a * spec.d_h
      then returns (
        record { shape = spec.n_a ∷ spec.d_h ∷ []; items = head_flat },
        record { shape = length svf_flat ∷ []; items = svf_flat },
      )
      else value_error

  unfoldable pub unpack : Array A → ParamSpec → Checked (Array A × Array A)
  unpack theta spec =
      let flat = map float64 theta.items in
      if not (length flat == spec.n_total)
      then value_error
      else reshaped spec (take spec.n_head flat) (drop spec.n_head flat)

  unfoldable pub initial_theta : ParamSpec → Checked (Array A)
  unfolding pack
  initial_theta spec =
      pack
        (record {
          shape = spec.n_a ∷ spec.d_h ∷ [];
          items = replicate (spec.n_a * spec.d_h) zero_f;
        })
        (record { shape = spec.n_svf ∷ []; items = replicate spec.n_svf one_f })
