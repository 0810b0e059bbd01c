-- ===== src/Py.antt =====
-- Python objects, as far as the program looks into them: the results of `ast.literal_eval` and of
-- `json.loads`, and the reference answers of the tasks.
use minirouter.Prelude.{ℕ, ◌+◌, ◌≤◌, Bool, Text}

-- `negsuc n` is -(n + 1).
pub data ℤ : Type 0 where
  pos : ℕ → ℤ
  negsuc : ℕ → ℤ

-- The order of the integers.
infix 4 ◌<ℤ◌
pub data ◌<ℤ◌ : ℤ → ℤ → Type 0 where
  both_pos : {m n : ℕ} → m + 1 ≤ n → pos m <ℤ pos n
  across : {m n : ℕ} → negsuc m <ℤ pos n
  both_neg : {m n : ℕ} → n + 1 ≤ m → negsuc m <ℤ negsuc n

mutual
  pub data Value : Type 0 where
    nothing : Value
    truth : Bool → Value
    int : ℤ → Value
    str : Text → Value
    list : Items → Value
    tuple : Items → Value
    dict : Fields → Value
    -- an object of another class (a float, bytes, a set), by its `repr`
    other : Text → Value

  pub data Items : Type 0 where
    nil : Items
    cons : Value → Items → Items

  pub data Fields : Type 0 where
    end : Fields
    field : Value → Value → Fields → Fields
