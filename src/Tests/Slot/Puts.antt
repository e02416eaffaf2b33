-- ===== src/Tests/Slot/Puts.antt =====
-- The items of the table with one item, and its conditional put.
use bunshin.Prelude.{
  ℕ, Bool, true, false, ◌&&◌, Option, none, some, ◌≡◌, refl, sym, subst, ap, ◌∙◌, ◌≢◌, inl, inr,
  arith, Bool-cases, if◌then◌else◌,
}
use bunshin.Text.{Text, lit, text_eq}
use bunshin.Text.Laws.{text_eq_iff, text_eq_refl}
use bunshin.Outcome.{Outcome, ok, err}
use bunshin.Broker.Store.Dynamo.Api.{
  AttributeValue, member_s, member, Item, DynamoError, conditional_check_failed, aws_error,
}
use bunshin.Broker.Store.Dynamo.Laws.{get_attribute, put_if_absent}
use bunshin.Tests.Slot.{Slot, is_text, holds, item_in, put}

pub and_left : (a b : Bool) → (a && b) ≡ true → a ≡ true
and_left true b h = refl
and_left false b h = h

pub and_right : (a b : Bool) → (a && b) ≡ true → b ≡ true
and_right true b h = h
and_right false b h = cc

pub ok_state :
    {w w' : Slot} → ◌≡◌ {A = Outcome Slot DynamoError (Unit {0})} (ok tt w) (ok tt w') → w ≡ w'
ok_state e = cc

pub err_ne_ok :
    {x : DynamoError} {w w' : Slot}
    → ◌≢◌ {A = Outcome Slot DynamoError (Unit {0})} (err x w) (ok tt w')
err_ne_ok e = cc

pub is_text_iff :
    (v : Text) (a : Option AttributeValue) → is_text v a ≡ true → a ≡ some (member_s v)
unfolding is_text
is_text_iff v (some (member_s u)) e = ap (λ x. some (member_s x)) ((text_eq_iff u v).0 e)
is_text_iff v (some (member n)) e = cc
is_text_iff v none e = cc

pub is_text_refl : (v : Text) → is_text v (some (member_s v)) ≡ true
unfolding is_text
is_text_refl v = text_eq_refl v

pub holds_of :
    (name v : Text) (item : Item)
    → get_attribute name item ≡ some (member_s v)
    → holds name v item ≡ true
holds_of name v item e = rw e (is_text_refl v)

pub keyed_lem :
    (t : Slot) (id : Text) (item : Item)
    → item_in t id ≡ some item
    → get_attribute (lit "runnerId") item ≡ some (member_s id)
unfolding item_in
keyed_lem none id item e = cc
keyed_lem (some x) id item e = elim (Bool-cases (holds (lit "runnerId") id x)) [
  | inl here ↦
      let same : x ≡ item = ground arith in
      ap (get_attribute (lit "runnerId")) (sym same) ∙ is_text_iff id _ here
  | inr away ↦ absurd (ground arith)
]

-- The one item, under its id and under another.
pub item_in-own :
    (item : Item) (id j : Text)
    → get_attribute (lit "runnerId") item ≡ some (member_s id)
    → item_in (some item) j ≡ (if text_eq j id then some item else none)
unfolding item_in is_text
item_in-own item id j e = rw (e, is_text) (ground (arith, text_eq_iff id j, text_eq_iff j id))

pub put_ok_lem :
    (name id : Text) (item : Item) (w w' : Slot)
    → get_attribute (lit "runnerId") item ≡ some (member_s id)
    → put (put_if_absent name item) w ≡ ok tt w'
    → (item_in w id ≡ none)
      × ((j : Text) → item_in w' j ≡ (if text_eq j id then some item else item_in w j))
unfolding put item_in
put_ok_lem name id item none w' own e =
    let same : some item ≡ w' = ground arith in
    (
      refl,
      λ j.
          subst (λ s. item_in s j ≡ (if text_eq j id then some item else none)) same
            (item_in-own item id j own),
    )
put_ok_lem name id item (some old) w' own e = absurd (ground arith)

pub put_eq :
    (name id : Text) (item old : Item)
    → get_attribute (lit "runnerId") item ≡ some (member_s id)
    → put (put_if_absent name item) (some old) ≡ (
        if holds (lit "runnerId") id old
        then err conditional_check_failed (some old)
        else err (aws_error 0) (some old))
unfolding put
put_eq name id item old own = rw own

pub put_failed_lem :
    (name id : Text) (item : Item) (w w' : Slot)
    → get_attribute (lit "runnerId") item ≡ some (member_s id)
    → put (put_if_absent name item) w ≡ err conditional_check_failed w'
    → (item_in w id ≢ none) × (w' ≡ w)
unfolding put item_in
put_failed_lem name id item none w' own e = cc
put_failed_lem name id item (some old) w' own e =
    let e' = sym (put_eq name id item old own) ∙ e in
    elim (Bool-cases (holds (lit "runnerId") id old)) [
      | inl here ↦ (λ x. ground arith, ground arith)
      | inr away ↦ absurd (ground arith)
    ]

pub put_error_lem :
    (name : Text) (item : Item) (n : ℕ) (w w' : Slot)
    → put (put_if_absent name item) w ≡ err (aws_error n) w'
    → (j : Text) → item_in w j ≢ none
    → item_in w' j ≢ none
unfolding put
put_error_lem name item n none w' e j h = cc
put_error_lem name item n (some old) w' e j h =
    let same : some old ≡ w' = ground arith in λ x. h (ap (λ s. item_in s j) same ∙ x)
