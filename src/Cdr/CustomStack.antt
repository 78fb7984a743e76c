-- ===== src/Cdr/CustomStack.antt =====
-- custom_stack<T, m_maximum_depth> of cdr_stream.hpp. A stack's top is the head of its list.
use cyclonedds_cxx.Common.{ℕ, List, [], ◌∷◌, length, ltb, if◌then◌else◌, Option, none, some}

-- m_maximum_depth
abbrev pub maximum_depth : ℕ
maximum_depth = 32

-- `none` where an assertion fails, or where the code would read below the stack.
module _ {A : Type 0} where
  unfoldable pub push : A → List A → Option (List A)
  push x st = if ltb (length st) maximum_depth then some (x ∷ st) else none

  unfoldable pub pop : List A → Option (A × List A)
  pop [] = none
  pop (x ∷ st) = some (x, st)

  unfoldable pub top : List A → Option A
  top [] = none
  top (x ∷ st) = some x

  -- `st.top() = x`
  unfoldable pub set_top : A → List A → Option (List A)
  set_top x [] = none
  set_top x (y ∷ st) = some (x ∷ st)
