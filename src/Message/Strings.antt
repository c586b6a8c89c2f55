-- ===== src/Message/Strings.antt =====
-- A string field of src/rpc.pb.h as it is stored: a presence bit and a pointer, to a string of its
-- own or to the one empty string that all messages share. The code is that of `service`; the three
-- other string fields have the same.
use m_rpc.Prelude.{
  ℕ, ◌+◌, arith, ◌≡◌, refl, ap, ◌∙◌, Bool, true, false, Option, none, some, List, [], ◌∷◌,
}
use m_rpc.Endian.{Bytes}
use m_rpc.Message.{Field, present_field, absent_field}

-- `cell` is the field's own string; `none` is the shared empty one.
pub record StringField : Type 0 where
  pub bit : Bool
  pub cell : Option Bytes

abbrev pub shared : StringField
shared = record { bit = false; cell = none }

-- `service()`
pub get_string : StringField → Bytes
get_string f = elim f.cell [ none ↦ [] | some s ↦ s ]

-- `set_service`, in each of its overloads
pub set_string : Bytes → StringField → StringField
set_string v f = record { bit = true; cell = some v }

-- `clear_service`
pub clear_string : StringField → StringField
clear_string f = record { bit = false; cell = elim f.cell [ none ↦ none | some s ↦ some [] ] }

-- `mutable_service`; the caller gets the pointer in `cell`.
pub mutable_string : StringField → StringField
mutable_string f = record { bit = true; cell = elim f.cell [ none ↦ some [] | some s ↦ some s ] }

-- `release_service`: the string that the caller owns then, or NULL
pub release_string : StringField → Option Bytes × StringField
release_string f = (f.cell, shared)

-- `set_allocated_service`: the string that is deleted, if any, and the field
pub set_allocated_string : Option Bytes → StringField → Option Bytes × StringField
set_allocated_string none f = (f.cell, shared)
set_allocated_string (some s) f = (f.cell, record { bit = true; cell = some s })

-- A use of the field; `writes` is a string written through the pointer of `mutable_service`.
pub data Op : Type 0 where
  sets : Bytes → Op
  clears : Op
  touches : Op
  writes : Bytes → Op
  releases : Op
  allocates : Option Bytes → Op

unfoldable pub apply : Op → StringField → StringField
unfolding set_string clear_string mutable_string release_string set_allocated_string
apply (sets v) f = set_string v f
apply clears f = clear_string f
apply touches f = mutable_string f
apply (writes v) f = record (mutable_string f) { cell = some v }
apply releases f = (release_string f).1
apply (allocates s) f = (set_allocated_string s f).1

unfoldable pub apply_all : List Op → StringField → StringField
apply_all [] f = f
apply_all (o ∷ os) f = apply_all os (apply o f)

-- The field as a presence bit and a value.
abbrev pub view : StringField → Field Bytes
unfolding get_string
view f = record { present = f.bit; value = get_string f }

-- The same uses of a bit and a value.
pub meaning : Op → Field Bytes → Field Bytes
meaning (sets v) f = present_field v
meaning clears f = absent_field []
meaning touches f = present_field f.value
meaning (writes v) f = present_field v
meaning releases f = absent_field []
meaning (allocates none) f = absent_field []
meaning (allocates (some s)) f = present_field s

pub meaning_all : List Op → Field Bytes → Field Bytes
meaning_all [] f = f
meaning_all (o ∷ os) f = meaning_all os (meaning o f)

view-apply :
    (o : Op) (b : Bool) (c : Option Bytes)
    → view (apply o (record { bit = b; cell = c }))
      ≡ meaning o (view (record { bit = b; cell = c }))
unfolding apply meaning get_string set_string clear_string mutable_string release_string
    set_allocated_string
view-apply (sets v) b c = refl
view-apply clears b none = refl
view-apply clears b (some s) = refl
view-apply touches b none = refl
view-apply touches b (some s) = refl
view-apply (writes v) b c = refl
view-apply releases b c = refl
view-apply (allocates none) b c = refl
view-apply (allocates (some s)) b c = refl

-- After any uses of a string field, its bit and what its getter gives are those of a field that
-- simply stores a bit and a value, where release and a NULL handed over are a reset.
pub apply_all-meaning :
    (os : List Op) (f : StringField) → view (apply_all os f) ≡ meaning_all os (view f)
unfolding apply_all meaning_all
apply_all-meaning [] f = refl
apply_all-meaning (o ∷ os) f =
    apply_all-meaning os (apply o f) ∙ ap (meaning_all os) (view-apply o f.bit f.cell)

abbrev pub PresentOwns : StringField → Type 0
PresentOwns f = f.bit ≡ true → f.cell ≡ none → ⊥

apply-PresentOwns :
    (o : Op) (b : Bool) (c : Option Bytes)
    → PresentOwns (record { bit = b; cell = c })
    → PresentOwns (apply o (record { bit = b; cell = c }))
unfolding apply set_string clear_string mutable_string release_string set_allocated_string
apply-PresentOwns (sets v) b c own = λ h k. cc
apply-PresentOwns clears b none own = λ h k. cc
apply-PresentOwns clears b (some s) own = λ h k. cc
apply-PresentOwns touches b none own = λ h k. cc
apply-PresentOwns touches b (some s) own = λ h k. cc
apply-PresentOwns (writes v) b c own = λ h k. cc
apply-PresentOwns releases b c own = λ h k. cc
apply-PresentOwns (allocates none) b c own = λ h k. cc
apply-PresentOwns (allocates (some s)) b c own = λ h k. cc

apply_all-PresentOwns :
    (os : List Op) (f : StringField) → PresentOwns f → PresentOwns (apply_all os f)
unfolding apply_all
apply_all-PresentOwns [] f own = own
apply_all-PresentOwns (o ∷ os) f own =
    apply_all-PresentOwns os (apply o f) (apply-PresentOwns o f.bit f.cell own)

restored :
    (b : Bool) (c : Option Bytes)
    → PresentOwns (record { bit = b; cell = c })
    → b ≡ true
    → set_allocated_string
        (release_string (record { bit = b; cell = c })).0
        (release_string (record { bit = b; cell = c })).1
      ≡ (none, record { bit = b; cell = c })
unfolding release_string set_allocated_string
restored b none own h = absurd (own h refl)
restored b (some s) own h = rw h refl

-- After any uses of a new string field that leave it present, releasing its string and handing the
-- same string back gives the field as it was, and deletes nothing.
pub release_string-set_allocated_string :
    (os : List Op)
    → (apply_all os shared).bit ≡ true
    → set_allocated_string
        (release_string (apply_all os shared)).0
        (release_string (apply_all os shared)).1
      ≡ (none, apply_all os shared)
release_string-set_allocated_string os h =
    restored (apply_all os shared).bit (apply_all os shared).cell
      (apply_all-PresentOwns os shared (λ k e. cc)) h

-- How many strings a pointer owns.
abbrev pub owned : Option Bytes → ℕ
owned none = 0
owned (some s) = 1

-- The strings that a use adds: made for the field where it has none of its own, or handed over.
pub added : Op → Option Bytes → ℕ
added (sets v) none = 1
added (sets v) (some s) = 0
added clears c = 0
added touches none = 1
added touches (some s) = 0
added (writes v) none = 1
added (writes v) (some s) = 0
added releases c = 0
added (allocates s) c = owned s

-- The strings that a use gives away or deletes, as its result says.
pub gone : Op → StringField → ℕ
unfolding release_string set_allocated_string
gone releases f = owned (release_string f).0
gone (allocates s) f = owned (set_allocated_string s f).0
gone _ f = 0

pub added_all : List Op → StringField → ℕ
added_all [] f = 0
added_all (o ∷ os) f = added o f.cell + added_all os (apply o f)

pub gone_all : List Op → StringField → ℕ
gone_all [] f = 0
gone_all (o ∷ os) f = gone o f + gone_all os (apply o f)

apply-owned :
    (o : Op) (b : Bool) (c : Option Bytes)
    → added o c + owned c
      ≡ gone o (record { bit = b; cell = c }) + owned (apply o (record { bit = b; cell = c })).cell
unfolding apply added gone set_string clear_string mutable_string release_string
    set_allocated_string
apply-owned (sets v) b none = refl
apply-owned (sets v) b (some s) = refl
apply-owned clears b none = refl
apply-owned clears b (some s) = refl
apply-owned touches b none = refl
apply-owned touches b (some s) = refl
apply-owned (writes v) b none = refl
apply-owned (writes v) b (some s) = refl
apply-owned releases b none = refl
apply-owned releases b (some s) = refl
apply-owned (allocates none) b none = refl
apply-owned (allocates none) b (some s) = refl
apply-owned (allocates (some v)) b none = refl
apply-owned (allocates (some v)) b (some s) = refl

apply_all-owned :
    (os : List Op) (f : StringField)
    → added_all os f + owned f.cell ≡ gone_all os f + owned (apply_all os f).cell
unfolding apply_all added_all gone_all
apply_all-owned [] f = refl
apply_all-owned (o ∷ os) f =
    omega (arith, apply-owned o f.bit f.cell, apply_all-owned os (apply o f))

-- After any uses of a string field: its bit and what its getter gives are those of a field that
-- simply stores a bit and a value, where release and a NULL handed over are a reset; and no string
-- is left behind, since those it had, made or was handed are as many as those that it gave to the
-- caller of release, deleted, or still owns.
pub apply_all-balance :
    (os : List Op) (f : StringField)
    → (view (apply_all os f) ≡ meaning_all os (view f))
      × (added_all os f + owned f.cell ≡ gone_all os f + owned (apply_all os f).cell)
apply_all-balance os f = (apply_all-meaning os f, apply_all-owned os f)
