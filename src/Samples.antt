-- ===== src/Samples.antt =====
-- Concrete parts for the tests: a bucket on an association list, codecs that know a few values, a
-- transparent MAC and an order of numbers for the floats.
use aldea.Prelude.{
  ℕ, ◌*◌, ◌/◌, ◌≡◌, refl, sym, ap, ◌∙◌, true, false, String, Option, none, some, List, ◌++◌, arith,
  if◌then◌else◌,
}
use aldea.Prelude.Int.{ℤ, pos, pos_part, ltb_ℤ, leb_ℤ, ◌+ℤ◌, ◌*ℤ◌, ◌-ℤ◌}
use aldea.Prelude.Dict.{Dict, IsDict, lookup, insert, lookup-insert, insert-IsDict}
use aldea.Prelude.Text.{str_eq}
use aldea.Backend.{Bucket, Codec, JsonStream, Base64}
use aldea.Scheduler.{Float}

abbrev pub Table : Type 0 → Type 0
Table R = (m : Dict R) × IsDict m

abbrev pub put_in : {R : Type 0} → Table R → String → R → Table R
put_in b k r = (insert k r b.0, insert-IsDict k r b.0 b.1)

abbrev pub from_some : {A : Type 0} → A → Option A → A
from_some a none = a
from_some a (some b) = b

pub get-put_in :
    {R : Type 0} (b b' : Table R) (k j : String) (r : R)
    → some (put_in b k r) ≡ some b'
    → lookup j b'.0 ≡ (if str_eq j k then some r else lookup j b.0)
get-put_in b b' k j r e = ap (λ o. lookup j (from_some b o).0) (sym e) ∙ lookup-insert j k r b.0

abbrev pub table_bucket : {R : Type 0} → Bucket (Table R) R
table_bucket = record {
  get = λ b k. lookup k b.0;
  put = λ b k r. some (put_in b k r);
  entries = λ b. b.0;
  get-put = get-put_in;
  lookup-entries = λ b k. refl;
  entries-IsDict = λ b. b.1;
}

pub none_apart : {A R : Type 0} (a b : A) (r : R) → none ≡ some r → some a ≡ some b
none_apart a b r e = absurd (ground (arith, e))

-- A codec that writes nothing and reads one value.
abbrev pub constant_codec : {A R : Type 0} → A → Codec A R
constant_codec a = record {
  marshal = λ _. none;
  unmarshal = λ _. some a;
  unmarshal-marshal = none_apart a;
}

-- A stream codec that writes nothing and reads one value.
abbrev pub constant_stream : {A : Type 0} → A → JsonStream A
constant_stream a = record {
  marshal = λ _. none;
  decode = λ _ _. some a;
  decode-marshal = λ b raw rest fails e. none_apart a b raw e;
}

abbrev pub plain_base64 : Base64
plain_base64 = record { encode = λ b. b; decode = λ b. some b; decode-encode = λ b. refl }

abbrev pub plain_mac : List ℕ → List ℕ → List ℕ
plain_mac key message = key ++ message

pub less_irrefl : (x : ℤ) → ltb_ℤ x x ≡ false
less_irrefl x = ground arith

pub less_trans : (x y z : ℤ) → ltb_ℤ x y ≡ true → ltb_ℤ y z ≡ true → ltb_ℤ x z ≡ true
less_trans x y z h k = ground (arith, h, k)

abbrev pub integers : Float ℤ
integers = record {
  of_int = λ z. z;
  add = ◌+ℤ◌;
  sub = ◌-ℤ◌;
  mul = ◌*ℤ◌;
  div = λ a b. pos (pos_part a * 1000 / pos_part b);
  less = ltb_ℤ;
  less_eq = leb_ℤ;
  less_irrefl = less_irrefl;
  less_trans = less_trans;
}
