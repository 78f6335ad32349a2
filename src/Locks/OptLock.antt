-- ===== src/Locks/OptLock.antt =====
-- OptLock of src/nali_concurrency.h: a word whose bit 0 says obsolete, bit 1 locked, and the rest the
-- version; and the data that it guards, of any type. A step is one atomic operation of one thread.
use nali.Prelude.{
  ℕ, suc, ◌+◌, ◌*◌, ◌/◌, ◌%◌, ◌^◌, ◌≤◌, ◌<◌, ◌≡◌, ◌⊎◌, Bool, true, false, ◌||◌, ◌==◌, if◌then◌else◌,
}

unfoldable pub is_locked : ℕ → Bool
is_locked version = version / 2 % 2 == 1

unfoldable pub is_obsolete : ℕ → Bool
is_obsolete version = version % 2 == 1

-- the version, and whether `needRestart` is set
unfoldable pub read_lock_or_restart : ℕ → ℕ × Bool
unfolding is_locked is_obsolete
read_lock_or_restart word = (word, is_locked word || is_obsolete word)

-- the word after, and `needRestart`, by a comparison with the version read before
unfoldable pub upgrade_to_write_lock_or_restart : ℕ → ℕ → ℕ × Bool
upgrade_to_write_lock_or_restart word version =
    if word == version then ((version + 2) % 2 ^ 64, false) else (word, true)

unfoldable pub read_unlock_or_restart : ℕ → ℕ → Bool
read_unlock_or_restart word start_read = if start_read == word then false else true

abbrev pub write_unlock : ℕ → ℕ
write_unlock word = (word + 2) % 2 ^ 64

abbrev pub write_unlock_obsolete : ℕ → ℕ
write_unlock_obsolete word = (word + 3) % 2 ^ 64

-- `word | 1`
abbrev pub label_obsolete : ℕ → ℕ
label_obsolete word = if word % 2 == 1 then word else word + 1

-- Only the holder of the lock writes the data and unlocks.
pub data Step {A : Type 0} : ℕ → A → ℕ → A → Type 0 where
  take_lock :
      {word : ℕ} {a : A} (version : ℕ)
      → (read_lock_or_restart version).1 ≡ false
      → (upgrade_to_write_lock_or_restart word version).1 ≡ false
      → Step word a (upgrade_to_write_lock_or_restart word version).0 a
  write : {word : ℕ} {a b : A} → is_locked word ≡ true → Step word a word b
  unlock : {word : ℕ} {a : A} → is_locked word ≡ true → Step word a (write_unlock word) a
  unlock_last :
      {word : ℕ} {a : A} → is_locked word ≡ true → Step word a (write_unlock_obsolete word) a
  label : {word : ℕ} {a : A} → Step word a (label_obsolete word) a

-- `n` steps, in any order
pub data Run {A : Type 0} (word0 : ℕ) (a0 : A) : ℕ → ℕ → A → Type 0 where
  begun : Run word0 a0 0 word0 a0
  later :
      {n word word' : ℕ} {a a' : A}
      → Run word0 a0 n word a
      → Step word a word' a'
      → Run word0 a0 (suc n) word' a'

-- Either nothing was written, or the word has grown.
record Seen {A : Type 0} (word0 : ℕ) (a0 : A) (n word : ℕ) (a : A) : Type 0 where
  bounded : word ≤ word0 + 3 * n
  moved : ((word ≡ word0) × (a ≡ a0)) ⊎ (word0 < word)
