-- ===== src/Broker/Store/Firestore/Documents.antt =====
-- The collection as a list of documents, and how the operations of the database change it.
use bunshin.Prelude.{
  ℕ, suc, ◌≤◌, ◌<◌, Bool, true, false, ◌&&◌, ◌||◌, not, List, [], ◌∷◌, Option, none, some, ◌≡◌,
  refl, ◌≢◌, if◌then◌else◌, arith, length, is_empty,
}
use bunshin.Text.{Text, text_eq}
use bunshin.Text.Laws.{text_eq_iff}
use bunshin.Text.Order.{text_ltb, text_ltb_irrefl, text_ltb_trans, text_ltb-nil}
use bunshin.Broker.Store.Firestore.{Value, Fields, set_field, DocSnapshot}

unfoldable pub find_doc : Text → List DocSnapshot → Option Fields
find_doc id [] = none
find_doc id (s ∷ docs) = if text_eq s.id id then some s.fields else find_doc id docs

unfoldable pub update_doc : Text → Text → Value → List DocSnapshot → List DocSnapshot
update_doc id field value [] = []
update_doc id field value (s ∷ docs) =
    if text_eq s.id id
    then record s { fields = set_field field value s.fields } ∷ docs
    else s ∷ update_doc id field value docs

unfoldable pub without_doc : Text → List DocSnapshot → List DocSnapshot
without_doc id [] = []
without_doc id (s ∷ docs) =
    let rest = without_doc id docs in if text_eq s.id id then rest else s ∷ rest

abbrev pub set_in : Text → Value → Option Fields → Option Fields
set_in field value none = none
set_in field value (some fields) = some (set_field field value fields)

pub find_doc-update_doc :
    (j id field : Text) (value : Value) (docs : List DocSnapshot)
    → find_doc j (update_doc id field value docs)
      ≡ (if text_eq j id then set_in field value (find_doc j docs) else find_doc j docs)
unfolding find_doc update_doc
find_doc-update_doc j id field value [] = ground arith
find_doc-update_doc j id field value (s ∷ docs) = ground (
  arith,
  find_doc-update_doc j id field value docs,
  text_eq_iff j id,
  text_eq_iff s.id id,
  text_eq_iff s.id j,
)

pub length-update_doc :
    (id field : Text) (value : Value) (docs : List DocSnapshot)
    → length (update_doc id field value docs) ≡ length docs
unfolding update_doc
length-update_doc id field value [] = refl
length-update_doc id field value (s ∷ docs) = ground (arith, length-update_doc id field value docs)

pub find_doc-without_doc :
    (j id : Text) (docs : List DocSnapshot)
    → find_doc j (without_doc id docs) ≡ (if text_eq j id then none else find_doc j docs)
unfolding find_doc without_doc
find_doc-without_doc j id [] = ground arith
find_doc-without_doc j id (s ∷ docs) = ground (
  arith,
  find_doc-without_doc j id docs,
  text_eq_iff j id,
  text_eq_iff s.id id,
  text_eq_iff s.id j,
)

pub length-without_doc-le :
    (id : Text) (docs : List DocSnapshot) → length (without_doc id docs) ≤ length docs
unfolding without_doc
length-without_doc-le id [] = omega arith
length-without_doc-le id (s ∷ docs) = ground (arith, length-without_doc-le id docs)

pub length-without_doc-lt :
    (id : Text) (docs : List DocSnapshot)
    → find_doc id docs ≢ none
    → length (without_doc id docs) < length docs
unfolding without_doc find_doc
length-without_doc-lt id [] h = absurd (h refl)
length-without_doc-lt id (s ∷ docs) h =
    ground (arith, length-without_doc-lt id docs, length-without_doc-le id docs)

-- The range of QueryIdleRange: behind `after`, up to `up_to`; the empty string is no bound.
unfoldable pub in_range : Text → Text → Text → Bool
in_range after up_to id =
    (is_empty after || text_ltb after id) && (is_empty up_to || not (text_ltb up_to id))

-- How many documents a range holds.
pub count_range : Text → Text → List DocSnapshot → ℕ
count_range after up_to [] = 0
count_range after up_to (s ∷ docs) =
    let rest = count_range after up_to docs in if in_range after up_to s.id then suc rest else rest

pub in_range_trans :
    (after mid up_to id : Text)
    → in_range after up_to mid ≡ true
    → mid ≢ []
    → in_range mid up_to id ≡ true
    → in_range after up_to id ≡ true
unfolding in_range
in_range_trans after mid up_to id h k l = ground (arith, text_ltb_trans after mid id)

in_range_self : (mid up_to : Text) → mid ≢ [] → in_range mid up_to mid ≡ false
unfolding in_range
in_range_self mid up_to h = ground (arith, text_ltb_irrefl mid)

count_range-le :
    (after mid up_to : Text) (docs : List DocSnapshot)
    → in_range after up_to mid ≡ true
    → mid ≢ []
    → count_range mid up_to docs ≤ count_range after up_to docs
unfolding count_range
count_range-le after mid up_to [] h k = omega arith
count_range-le after mid up_to (s ∷ docs) h k =
    ground (arith, count_range-le after mid up_to docs, in_range_trans after mid up_to s.id)

-- Going on behind a document of the range leaves fewer documents.
pub count_range-lt :
    (after mid up_to : Text) (docs : List DocSnapshot)
    → in_range after up_to mid ≡ true
    → mid ≢ []
    → find_doc mid docs ≢ none
    → count_range mid up_to docs < count_range after up_to docs
unfolding count_range find_doc
count_range-lt after mid up_to [] h k l = absurd (l refl)
count_range-lt after mid up_to (s ∷ docs) h k l = ground (
  arith,
  count_range-lt after mid up_to docs,
  count_range-le after mid up_to docs,
  in_range_trans after mid up_to s.id,
  in_range_self mid up_to,
  text_eq_iff s.id mid,
)

pub count_range-le-length :
    (after up_to : Text) (docs : List DocSnapshot) → count_range after up_to docs ≤ length docs
unfolding count_range
count_range-le-length after up_to [] = omega arith
count_range-le-length after up_to (s ∷ docs) =
    ground (arith, count_range-le-length after up_to docs)

-- The two segments of AcquireIdle hold every id.
pub segments_cover : (start id : Text) → in_range start [] id ≡ false → in_range [] start id ≡ true
unfolding in_range
segments_cover start id h = ground arith

-- What stands behind an id of the range is in the range that begins there.
pub in_range-behind :
    (after up_to last id : Text)
    → in_range after up_to id ≡ true
    → text_ltb last id ≡ true
    → in_range last up_to id ≡ true
unfolding in_range
in_range-behind after up_to last id h k = ground arith

-- An id of a range that begins at `after` stands behind it.
pub after-lt :
    (after up_to id : Text) → in_range after up_to id ≡ true → id ≢ [] → text_ltb after id ≡ true
unfolding in_range
after-lt [] up_to [] h k = absurd (k refl)
after-lt [] up_to (c ∷ id) h k = text_ltb-nil c id
after-lt (c ∷ after) up_to id h k = ground arith
