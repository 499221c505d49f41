-- ===== src/Auth/Keys.antt =====
-- The cache of signing keys of auth.go: jwtVerifier with key, recordMissingKey, refresh and rsaKey. The
-- fetched document, base64 and the clock are arguments; the zero time is 0. A map is the list of its
-- entries, and the order of its iteration is the order of the list.
use integration_console.Prelude.{
  ℕ, ◌+◌, ◌-◌, ◌*◌, Bool, true, false, not, ◌&&◌, ◌||◌, Option, none, some, List, [], ◌∷◌, ltb, leb,
  if◌then◌else◌, Text, codes, same_text, is_empty, length, keep, get_entry, set_entry, delete_entry,
}

-- jwk
pub record Jwk : Type 0 where
  pub key_type : Text
  pub use_for : Text
  pub key_id : Text
  pub modulus : Text
  pub exponent : Text

-- rsa.PublicKey
pub record RsaKey : Type 0 where
  pub modulus : Text
  pub exponent : ℕ

-- jwtVerifier
pub record Verifier : Type 0 where
  pub keys : List (Text × RsaKey)
  pub missing_keys : List (Text × ℕ)
  pub expiry : ℕ
  pub last_refresh : ℕ

abbrev pub refresh_cooldown : ℕ
refresh_cooldown = 30000000000

abbrev pub key_lifetime : ℕ
key_lifetime = 300000000000

abbrev pub max_missing_keys : ℕ
max_missing_keys = 1024

abbrev pub new_verifier : Verifier
new_verifier = record { keys = []; missing_keys = []; expiry = 0; last_refresh = 0 }

-- The big-endian number of the bytes.
abbrev pub number_of : ℕ → Text → ℕ
number_of n [] = n
number_of n (b ∷ bs) = number_of (256 * n + b) bs

abbrev pub read_exponent : Text → Option Text → Option RsaKey
read_exponent modulus none = none
read_exponent modulus (some bytes) =
    if is_empty bytes || ltb 4 (length bytes) || ltb (number_of 0 bytes) 3
    then none
    else some (record { modulus = modulus; exponent = number_of 0 bytes })

abbrev pub read_modulus : Option Text → Option Text → Option RsaKey
read_modulus none exponent = none
read_modulus (some bytes) exponent = if is_empty bytes then none else read_exponent bytes exponent

abbrev pub add_key : Text → Option RsaKey → List (Text × RsaKey) → List (Text × RsaKey)
add_key id none keys = keys
add_key id (some key) keys = set_entry id key keys

-- `now.Sub(then) < refreshCooldown`
abbrev pub is_recent : ℕ → ℕ → Bool
is_recent now before = ltb (now - before) refresh_cooldown

-- The loop over the entries that are kept, which looks for the oldest.
abbrev pub older : Text × ℕ → Option (Text × ℕ) → Option (Text × ℕ)
older entry none = some entry
older (k, t) (some (l, u)) = if ltb t u then some (k, t) else some (l, u)

unfoldable pub oldest_from : Option (Text × ℕ) → List (Text × ℕ) → Option (Text × ℕ)
oldest_from best [] = best
oldest_from best (entry ∷ rest) = oldest_from (older entry best) rest

abbrev pub without_oldest : Option (Text × ℕ) → List (Text × ℕ) → List (Text × ℕ)
without_oldest none entries = entries
without_oldest (some (id, t)) entries = delete_entry id entries

-- recordMissingKey
unfoldable pub record_missing_key : Text → ℕ → Verifier → Verifier
unfolding set_entry delete_entry oldest_from
record_missing_key id now v =
    let kept = keep (λ entry. is_recent now entry.1) v.missing_keys in
    let room =
      if leb max_missing_keys (length kept)
      then without_oldest (oldest_from none kept) kept
      else kept in
    record v { missing_keys = set_entry id now room }

-- What the first locked section of key finds.
pub data Reading : Type 0 where
  cached : RsaKey → Reading
  unknown : Reading
  unknown_recorded : Reading
  outdated : Reading

abbrev pub missed_recently : ℕ → Option ℕ → Bool
missed_recently now none = false
missed_recently now (some before) = is_recent now before

unfoldable pub read_found : ℕ → Verifier → RsaKey → Reading
read_found now v key =
    if ltb now v.expiry
    then cached key
    else if is_recent now v.last_refresh
    then cached key
    else outdated

unfoldable pub read_absent : Text → ℕ → Verifier → Reading
unfolding get_entry
read_absent id now v =
    if missed_recently now (get_entry id v.missing_keys)
    then unknown
    else if is_recent now v.last_refresh
    then unknown_recorded
    else outdated

abbrev pub read_with : Text → ℕ → Verifier → Option RsaKey → Reading
read_with id now v none = read_absent id now v
read_with id now v (some key) = read_found now v key

unfoldable pub read_key : Text → ℕ → Verifier → Reading
unfolding get_entry read_found read_absent
read_key id now v = read_with id now v (get_entry id v.keys)

module _ (decode : Text → Option Text) where
  -- rsaKey
  unfoldable pub rsa_key : Jwk → Option RsaKey
  rsa_key value = read_modulus (decode value.modulus) (decode value.exponent)

  abbrev pub is_usable : Jwk → Bool
  is_usable candidate =
      same_text candidate.key_type (codes "RSA")
      && not (is_empty candidate.key_id)
      && (is_empty candidate.use_for || same_text candidate.use_for (codes "sig"))

  -- The loop over the keys of a document.
  unfoldable pub keys_of : List (Text × RsaKey) → List Jwk → List (Text × RsaKey)
  unfolding rsa_key set_entry
  keys_of keys [] = keys
  keys_of keys (candidate ∷ rest) =
      keys_of
        (if is_usable candidate then add_key candidate.key_id (rsa_key candidate) keys else keys)
        rest

  -- The keys of a fetch that succeeds; `none` for a document that could not be fetched.
  abbrev pub fetched : Option (List Jwk) → List (Text × RsaKey)
  fetched none = []
  fetched (some document) = keys_of [] document

  abbrev pub install : ℕ → ℕ → Verifier → List (Text × RsaKey) → Verifier × Bool
  install first second v [] = (v, false)
  install first second v (entry ∷ rest) =
      (record v { keys = entry ∷ rest; expiry = first + key_lifetime; last_refresh = second }, true)

  -- refresh, which asks for the cooldown at `asked` and reads the clock twice when it installs the keys.
  -- The second result says whether it returns no error.
  unfoldable pub refresh : ℕ → ℕ → ℕ → Option (List Jwk) → Verifier → Verifier × Bool
  unfolding keys_of
  refresh asked first second document v =
      if is_recent asked v.last_refresh
      then (v, true)
      else install first second v (fetched document)

  abbrev pub reread_with : Text → ℕ → Verifier → Option RsaKey → Verifier × Option RsaKey
  reread_with id now v none = (record_missing_key id now v, none)
  reread_with id now v (some key) = (v, some key)

  abbrev pub reread : Text → ℕ → Verifier × Bool → Verifier × Option RsaKey
  reread id now (v, false) = (v, none)
  reread id now (v, true) = reread_with id now v (get_entry id v.keys)

  abbrev pub answer :
      Text → ℕ → ℕ → ℕ → ℕ → Option (List Jwk) → Verifier → Reading → Verifier × Option RsaKey
  answer id now asked first second document v (cached key) = (v, some key)
  answer id now asked first second document v unknown = (v, none)
  answer id now asked first second document v unknown_recorded = (record_missing_key id now v, none)
  answer id now asked first second document v outdated =
      reread id now (refresh asked first second document v)

  -- key, with no other call in between.
  unfoldable pub key :
      Text → ℕ → ℕ → ℕ → ℕ → Option (List Jwk) → Verifier → Verifier × Option RsaKey
  unfolding read_key refresh record_missing_key get_entry
  key id now asked first second document v =
      answer id now asked first second document v (read_key id now v)

  -- The locked sections that write, in any order.
  pub data Op : Type 0 where
    refreshes : ℕ → ℕ → ℕ → Option (List Jwk) → Op
    records : Text → ℕ → Op

  unfoldable pub step : Verifier → Op → Verifier
  unfolding refresh record_missing_key
  step v (refreshes asked first second document) = (refresh asked first second document v).0
  step v (records id now) = record_missing_key id now v

  unfoldable pub run : Verifier → List Op → Verifier
  unfolding step
  run v [] = v
  run v (o ∷ os) = run (step v o) os

  -- The time of the last refresh after each section.
  unfoldable pub refresh_times : Verifier → List Op → List ℕ
  unfolding step
  refresh_times v [] = []
  refresh_times v (o ∷ os) = (step v o).last_refresh ∷ refresh_times (step v o) os
