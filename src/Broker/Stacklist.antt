-- ===== src/Broker/Stacklist.antt =====
-- broker/stacklist/stacklist.go: comma-separated stack names and the circular fallback order.
pub mod Rotation
use bunshin.Prelude.{
  ℕ, zero, suc, ◌+◌, Bool, true, false, not, List, [], ◌∷◌, ◌++◌, Option, none, some, take, drop,
  is_empty, if◌then◌else◌,
}
use bunshin.Text.{Text, text_eq, trim_space, split}

-- The loop of Split over the parts.
keep_names : List Text → List Text
keep_names [] = []
keep_names (part ∷ parts) =
    let name = trim_space part in
    let rest = keep_names parts in if is_empty name then rest else name ∷ rest

-- Split.
unfoldable pub split_names : Text → List Text
unfolding keep_names
split_names raw = keep_names (split b',' raw)

abbrev next_index : Option ℕ → Option ℕ
next_index none = none
next_index (some i) = some (suc i)

-- The index of the first element that is `self`; `none` is the pivot -1.
pivot_of : Text → List Text → Option ℕ
pivot_of self [] = none
pivot_of self (name ∷ names) =
    if text_eq name self then some 0 else next_index (pivot_of self names)

-- The loop over the elements behind the pivot.
pub skip_self : Text → List Text → List Text
skip_self self [] = []
skip_self self (name ∷ names) =
    let rest = skip_self self names in if text_eq name self then rest else name ∷ rest

rotate_at : Text → List Text → Option ℕ → List Text × Bool
unfolding skip_self
rotate_at self names none = (names, false)
rotate_at self names (some pivot) =
    (skip_self self (drop (pivot + 1) names) ++ take pivot names, true)

-- Parse.
unfoldable pub parse : Text → Text → List Text × Bool
unfolding pivot_of rotate_at split_names
parse raw self = let names = split_names raw in rotate_at self names (pivot_of self names)
