-- ===== src/Tests/Storage.antt =====
-- Varints, blob headers, buffers and the cache of mapped files.
use jonoondb.Prelude.{
  ℕ, ◌≡◌, ◌↔◌, refl, List, [], ◌∷◌, ◌++◌, some, Bool, true, false, arith, length, replicate,
  length-replicate, min, ℕ_discrete,
}
use mathlib.Core.List.{Perm}
use jonoondb.Varint.{encode_loop, encode_varint, decode_loop, decode_varint, decoded, malformed}
use jonoondb.Varint.RoundTrip.{decode_varint-decode_loop, decode_varint-encode_varint}
use jonoondb.Blob.Header.{BlobHeader, write_blob_header, read_blob_header, done, read_varint}
use jonoondb.Buffer.{Buffer, standard_delete, contents, less, equal, memcmp, assign}
use jonoondb.Buffer.Valid.{IsValid, contents-assign}
use jonoondb.Buffer.Order.{lex_lt, less-lex_lt, equal_iff}
use jonoondb.LruCache.{Cache, Entry, Victim, collect, perform_eviction, lookup, erase}
use jonoondb.LruCache.Victims.{candidates, NoLater, collect_lru}
use jonoondb.LruCache.Pinned.{perform_eviction-keeps}

-- 300 is the two bytes 0xAC 0x02.
encode_300 : encode_varint 300 ≡ some (0xac ∷ 0x02 ∷ [])
unfolding encode_varint encode_loop
encode_300 = refl

decode_300 : decode_varint (0xac ∷ 0x02 ∷ 0x07 ∷ []) ≡ decoded 2 300
unfolding decode_varint
decode_300 = refl

-- Eleven continuation bytes are no varint.
decode_long : decode_varint (replicate 11 0xff) ≡ malformed
unfolding decode_varint decode_loop
decode_long = refl

decode_varint-decode_loop_example :
    decode_varint (0xac ∷ 0x02 ∷ []) ≡ decode_loop (0xac ∷ 0x02 ∷ []) 0 0
decode_varint-decode_loop_example = decode_varint-decode_loop (0xac ∷ 0x02 ∷ [])

decode_varint-encode_varint_example :
    (bytes : List ℕ) × (encode_varint 300 ≡ some bytes)
    × (decode_varint (bytes ++ (7 ∷ [])) ≡ decoded (length bytes) 300)
decode_varint-encode_varint_example = decode_varint-encode_varint 300 (7 ∷ []) (omega arith)

abbrev packed : BlobHeader
packed = record { version = 1; compressed = true; blob_size = 300; comp_size = 5 }

write_packed : write_blob_header packed ≡ some (0x11 ∷ 0xac ∷ 0x02 ∷ 0x05 ∷ [])
unfolding write_blob_header encode_varint encode_loop
write_packed = refl

read_packed : read_blob_header 0 (0x11 ∷ 0xac ∷ 0x02 ∷ 0x05 ∷ 0x63 ∷ []) ≡ done packed (0x63 ∷ [])
unfolding read_blob_header read_varint decode_varint
read_packed = refl

abbrev zeros : ℕ → List ℕ
zeros n = replicate n 0

zeros_sized : (n : ℕ) → length (zeros n) ≡ n
zeros_sized n = length-replicate n 0

abbrev ab : Buffer
ab = record { bytes = some (97 ∷ 98 ∷ 0 ∷ []); deleter = standard_delete; len = 2; capacity = 3 }

abbrev abc : Buffer
abc = record { bytes = some (97 ∷ 98 ∷ 99 ∷ []); deleter = standard_delete; len = 3; capacity = 3 }

ab-IsValid : IsValid ab
ab-IsValid = omega arith

abc-IsValid : IsValid abc
abc-IsValid = omega arith

ab_before_abc : less false ab abc ≡ true
unfolding less memcmp
ab_before_abc = refl

less-lex_lt_example : less false ab abc ≡ lex_lt (contents ab) (contents abc)
less-lex_lt_example = less-lex_lt false ab abc ab-IsValid abc-IsValid (λ e. cc)

equal_iff_example : (equal false ab abc ≡ true) ↔ (contents ab ≡ contents abc)
equal_iff_example = equal_iff ab abc ab-IsValid abc-IsValid

abbrev b : Buffer
b = record { bytes = some (98 ∷ []); deleter = standard_delete; len = 1; capacity = 1 }

b-IsValid : IsValid b
b-IsValid = omega arith

abc_before_b : less false abc b ≡ true
unfolding less memcmp
abc_before_b = refl

contents-assign_example : contents (assign zeros false ab abc) ≡ contents abc
contents-assign_example = contents-assign zeros zeros_sized ab abc ab-IsValid abc-IsValid

abbrev file : ℕ → Bool → Entry ℕ
file used evictable = record { value = used; last_used = used; evictable = evictable }

-- Four files, of which the oldest is being written, in a cache for two.
abbrev files : Cache ℕ ℕ
files = record {
  entries = (0, file 1 false) ∷ (1, file 4 true) ∷ (2, file 2 true) ∷ (3, file 3 true) ∷ [];
  last_used = 4;
  max_cache_size = 2;
}

evict_two : (perform_eviction ℕ_discrete files).entries ≡ (0, file 1 false) ∷ (1, file 4 true) ∷ []
unfolding perform_eviction erase ℕ_discrete
evict_two = refl

collect_lru_example :
    (stay : List (Victim ℕ)) × Perm (collect files ++ stay) (candidates files.entries)
    × NoLater (collect files) stay
    × (length (collect files) ≡ min 2 (length (candidates files.entries)))
collect_lru_example = collect_lru files

perform_eviction-keeps_example :
    lookup ℕ_discrete 0 (perform_eviction ℕ_discrete files).entries ≡ some (file 1 false)
unfolding lookup ℕ_discrete
perform_eviction-keeps_example =
    perform_eviction-keeps ℕ_discrete files 0 (file 1 false) (omega arith) refl refl
