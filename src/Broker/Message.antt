-- ===== src/Broker/Message.antt =====
-- broker/message.pb.go: the broker's message, and the values that its decoder returns.
-- An int, an int64 or a uint64 of the source is its pattern of 64 bits, an int32 one of 32 bits.
pub mod Size
pub mod Marshal
pub mod Unmarshal
pub mod Format
pub mod Writes
pub mod Encoding
pub mod Scan
pub mod Malformed
pub mod RoundTrip
pub mod Retry
pub mod Decoding
pub mod Cut
pub mod Truncated
pub mod Parts
pub mod Skip
pub mod Unknown
mod Tests
use kuja.Prelude.{
  ℕ, ◌+◌, ◌%◌, ◌^◌, Bool, true, false, ◌&&◌, ◌||◌, not, Option, none, some, List, [],
}
use kuja.Prelude.{Str, leb, ltb}
use kuja.Prelude.Dict.{Dict}

-- `none` is a nil map and a nil slice.
pub record Message : Type 0 where
  pub id : Str
  pub header : Option (Dict Str)
  pub retry : ℕ
  pub body : Option Str

-- `&Message{}`
abbrev pub blank : Message
blank = record { id = []; header = none; retry = 0; body = none }

-- What `range m.Header` visits.
abbrev pub entries : Option (Dict Str) → Dict Str
entries none = []
entries (some m) = m

pub data FieldName : Type 0 where
  id_field header_field retry_field body_field : FieldName

pub data Error : Type 0 where
  unexpected_eof : Error
  wrong_wire_type : ℕ → FieldName → Error
  illegal_wire_type : ℕ → Error

-- A run of a decoder: it mutates the message also where it fails. `stuck` is no Go value: the
-- rounds that the model allows did not suffice.
pub data Outcome (A : Type 0) : Type 0 where
  ok : A → Message → Outcome A
  err : Error → Message → Outcome A
  panic : Outcome A
  stuck : Outcome A

abbrev pub M : Type 0 → Type 0
M A = Message → Outcome A

infixl 5 ◌>>=◌ ◌>>◌
abbrev pub then_run : {A B : Type 0} → (A → M B) → Outcome A → Outcome B
then_run f (ok a m) = f a m
then_run f (err e m) = err e m
then_run f panic = panic
then_run f stuck = stuck

abbrev pub ◌>>=◌ : {A B : Type 0} → M A → (A → M B) → M B
◌>>=◌ x f m = then_run f (x m)

abbrev pub ◌>>◌ : {B : Type 0} → M (Unit {0}) → M B → M B
x >> y = x >>= λ _. y

abbrev pub pure : {A : Type 0} → A → M A
pure a m = ok a m

abbrev pub throw : {A : Type 0} → Error → M A
throw e m = err e m

abbrev pub fault : {A : Type 0} → M A
fault m = panic

abbrev pub modify : (Message → Message) → M (Unit {0})
modify f m = ok tt (f m)

abbrev pub check : Bool → Error → M (Unit {0})
check true e = pure tt
check false e = throw e

-- A sum of two ints, with its wrap-around.
abbrev pub add64 : ℕ → ℕ → ℕ
add64 a b = (a + b) % 2 ^ 64

-- Is the int negative?
abbrev pub negative : ℕ → Bool
negative p = leb (2 ^ 63) p

-- `i < l` and `l < p` on ints, where `l` is a length.
abbrev pub index_below : ℕ → ℕ → Bool
index_below i l = negative i || ltb i l

abbrev pub past_end : ℕ → ℕ → Bool
past_end p l = not (negative p) && ltb l p
