-- ===== src/Registry/Mutex.antt =====
-- A registry's cache behind a sync.RWMutex, and the steps of a goroutine that uses it while no other
-- one does. A lock that is taken and not given back stays taken.
use kuja.Prelude.{ℕ, zero, suc, ◌≡◌, Bool, true, false}
use kuja.Prelude.Dict.{Dict}
use kuja.Registry.{NodeList}

pub record Cache : Type 0 where
  pub services : Dict NodeList
  pub readers : ℕ
  pub writer : Bool

-- `waits` is a lock that nobody gives back; `fatal` is an unlock of a lock that is not held.
pub data Step (A : Type 0) : Type 0 where
  done : A → Cache → Step A
  waits : Step A
  fatal : Step A

abbrev pub M : Type 0 → Type 0
M A = Cache → Step A

abbrev pub pure : {A : Type 0} → A → M A
pure a c = done a c

abbrev pub continue : {A B : Type 0} → (A → M B) → Step A → Step B
continue f (done a c) = f a c
continue f waits = waits
continue f fatal = fatal

infixl 5 ◌>>=◌ ◌>>◌
abbrev pub ◌>>=◌ : {A B : Type 0} → M A → (A → M B) → M B
◌>>=◌ m f c = continue f (m c)

abbrev pub ◌>>◌ : {B : Type 0} → M (Unit {0}) → M B → M B
m >> k = m >>= λ _. k

abbrev pub cached : M (Dict NodeList)
cached c = done c.services c

abbrev pub store : Dict NodeList → M (Unit {0})
store d c = done tt (record c { services = d })

abbrev pub r_lock_if : Bool → M (Unit {0})
r_lock_if true c = waits
r_lock_if false c = done tt (record c { readers = suc c.readers })

abbrev pub r_lock : M (Unit {0})
r_lock c = r_lock_if c.writer c

abbrev pub r_unlock_if : ℕ → M (Unit {0})
r_unlock_if zero c = fatal
r_unlock_if (suc n) c = done tt (record c { readers = n })

abbrev pub r_unlock : M (Unit {0})
r_unlock c = r_unlock_if c.readers c

abbrev pub lock_if : ℕ → Bool → M (Unit {0})
lock_if zero false c = done tt (record c { writer = true })
lock_if zero true c = waits
lock_if (suc n) b c = waits

abbrev pub lock : M (Unit {0})
lock c = lock_if c.readers c.writer c

abbrev pub unlock_if : Bool → M (Unit {0})
unlock_if true c = done tt (record c { writer = false })
unlock_if false c = fatal

abbrev pub unlock : M (Unit {0})
unlock c = unlock_if c.writer c

-- Nobody holds the lock.
pub record IsFree (c : Cache) : Type 0 where
  pub no_readers : c.readers ≡ 0
  pub no_writer : c.writer ≡ false
