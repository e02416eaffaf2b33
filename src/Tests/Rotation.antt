-- ===== src/Tests/Rotation.antt =====
-- The lists of stacks, on small ones.
use bunshin.Prelude.{true, [], ◌∷◌, ◌++◌, ◌≡◌, refl}
use bunshin.Text.{Text, lit, trim_space, is_space, split, trim_left, trim_right}
use bunshin.Text.Laws.{text_eq-ne}
use bunshin.Broker.Stacklist.{split_names, parse}
use bunshin.Broker.Stacklist.Rotation.{IsName, parse_rotates}

abbrev pub stacks : Text
stacks = lit "aws, gcp ,local"

pub splits : split_names stacks ≡ (lit "aws" ∷ []) ++ (lit "gcp" ∷ lit "local" ∷ [])
unfolding split_names split trim_space trim_left trim_right is_space
splits = refl

parse_rotates_example : parse stacks (lit "gcp") ≡ (lit "local" ∷ lit "aws" ∷ [], true)
parse_rotates_example =
    parse_rotates stacks (lit "gcp") (lit "aws" ∷ []) (lit "local" ∷ []) splits
      (text_eq-ne (lit "aws") (lit "gcp") refl, tt) (text_eq-ne (lit "local") (lit "gcp") refl, tt)

pub aws-IsName : IsName (lit "aws")
unfolding trim_space trim_left trim_right is_space
aws-IsName = record {
  filled = λ e. cc;
  trimmed = refl;
  lacks_comma = ((λ e. cc), ((λ e. cc), ((λ e. cc), tt)));
}
