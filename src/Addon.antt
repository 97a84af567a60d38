-- ===== src/Addon.antt =====
-- The Node addon, argon2_core.cpp, on a POSIX system: its buffers, its two workers and the two
-- functions it exports. `posix_memalign` and Node's values are parameters.
pub mod Worker
pub mod Calls
pub mod Compare
pub mod Settled
pub mod Verify
pub mod Wipe
pub mod Rejections
pub mod Tests
use argon.Base.{
  ℕ, zero, suc, ◌+◌, ◌*◌, ◌-◌, ◌^◌, Bool, true, false, Option, none, some, List, [], ◌∷◌, ◌++◌,
  Bytes, length, get_or, take, drop, replicate, ltb, ◌==◌, if◌then◌else◌, bit_or, bit_xor,
}
use argon.Memory.{Platform}

-- What the addon gets from outside: what the core gets, the content of the memory that
-- `posix_memalign` returns for an alignment and a size, and the `data()` of a vector of no bytes.
pub record Host : Type 0 where
  pub platform : Platform
  pub memalign : ℕ → ℕ → Option Bytes
  pub empty_vector : Option Bytes

abbrev pub huge_page_size : ℕ
huge_page_size = 2 * 1024 * 1024

-- The memory that `custom_allocate` gives; `none` is -1.
pub custom_allocate : Host → ℕ → Option Bytes
custom_allocate host bytes_to_allocate =
    let alignment = if ltb bytes_to_allocate huge_page_size then 4096 else huge_page_size in
    host.memalign alignment bytes_to_allocate

-- The bytes behind a pointer after `secure_wipe`.
pub secure_wipe : Option Bytes → ℕ → Option Bytes
secure_wipe none size = none
secure_wipe (some bytes) size =
    if size == 0 then some bytes else some (replicate size 0 ++ drop size bytes)

-- The loop of `constant_time_compare`, with the bytes that are left, the index and `result`.
pub difference : ℕ → ℕ → Bytes → Bytes → ℕ → ℕ
difference zero i a b result = result
difference (suc n) i a b result =
    difference n (i + 1) a b (bit_or result (bit_xor (get_or a i 0) (get_or b i 0)))

pub constant_time_compare : Bytes → Bytes → ℕ → Bool
unfolding difference
constant_time_compare a b length = difference length 0 a b 0 == 0

-- `SecureBuffer`; `pointer` is its `data`.
pub record SecureBuffer : Type 0 where
  pub pointer : Option Bytes
  pub size : ℕ
  pub ok : Bool

-- Its constructor, on the bytes of a buffer of Node.
pub secure_buffer : Host → Bytes → SecureBuffer
secure_buffer host napi_buf =
    let size = length napi_buf in
    if size == 0
    then record { pointer = none; size = size; ok = true }
    else elim (custom_allocate host size) [
      | none ↦ record { pointer = none; size = size; ok = false }
      | some memory ↦ record {
        pointer = some (napi_buf ++ drop size memory);
        size = size;
        ok = true;
      }
    ]

-- The memory that its destructor hands to `custom_free`.
pub released : SecureBuffer → Option Bytes
unfolding secure_wipe
released b = secure_wipe b.pointer b.size

-- The `data()` of a vector.
unfoldable pub vector_data : Host → Bytes → Option Bytes
vector_data host v = if length v == 0 then host.empty_vector else some v
