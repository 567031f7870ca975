-- ===== src/HalFlash.antt =====
-- HAL/hal_flash.h, HAL/hal_flash_stm32f1.c: the internal flash, restricted to the profile slots.
pub mod Frame
use teep_j1939_patent.Base.{ℕ, zero, suc, ◌+◌, ◌-◌, ◌*◌, ◌%◌, List, [], ◌∷◌, get_or, drop}
use teep_j1939_patent.Base.{Bool, true, false, not, ◌&&◌, ◌||◌, ltb, leb, ◌==◌, ◌!=◌}
use teep_j1939_patent.Base.{if◌then◌else◌, Option, none, some, u8, u16, ◌>>>◌, ◌<<<◌}
use teep_j1939_patent.Base.{bit_and, bit_or}

abbrev pub flash_page_size : ℕ
flash_page_size = 1024

abbrev pub profile_slot_size : ℕ
profile_slot_size = 4096

abbrev pub profile_slot_a_address : ℕ
profile_slot_a_address = 0x0800_e000

abbrev pub profile_slot_b_address : ℕ
profile_slot_b_address = 0x0800_f000

abbrev pub profile_storage_end : ℕ
profile_storage_end = 0x0801_0000

-- `hal_flash_status_t`
pub data FlashStatus : Type 0 where
  flash_ok flash_bad_argument flash_bad_address flash_timeout flash_program_error : FlashStatus
  flash_write_protected flash_verify_error : FlashStatus

-- What the flash controller does in one erase or program operation, as the registers report it.
-- `cells` are the bytes that the operation leaves where it works, whatever it was asked to do.
pub record Answer : Type 0 where
  pub ready : Bool  -- `BSY` clears before the unlock
  pub unlocked : Bool  -- `LOCK` is clear after the keys
  pub finished : Bool  -- `BSY` clears after the operation
  pub write_protect_error : Bool
  pub program_error : Bool
  pub cells : List ℕ

-- A controller that answers no more, as when the power is gone.
abbrev pub no_answer : Answer
no_answer = record {
  ready = false;
  unlocked = false;
  finished = false;
  write_protect_error = false;
  program_error = false;
  cells = [];
}

-- The byte at every address, and the controller's answers to come, one per operation it starts.
pub record Flash : Type 0 where
  pub memory : ℕ → ℕ
  pub answers : List Answer

-- `prv_range_valid`
abbrev pub range_valid : ℕ → ℕ → Bool
range_valid address len =
    not ((len == 0) || ltb address profile_slot_a_address)
    && (ltb address profile_storage_end && leb len (profile_storage_end - address))

-- `prv_operation_result`
abbrev pub operation_result : Answer → FlashStatus
operation_result a =
    if a.write_protect_error
    then flash_write_protected
    else if a.program_error
    then flash_program_error
    else flash_ok

-- `prv_unlock`
abbrev pub unlock : Answer → FlashStatus
unlock a =
    if not a.ready
    then flash_timeout
    else if not a.unlocked
    then flash_write_protected
    else flash_ok

-- `prv_wait_not_busy` after the operation, then its result
abbrev pub operation_status : Answer → FlashStatus
operation_status a = if not a.finished then flash_timeout else operation_result a

abbrev pub is_flash_ok : FlashStatus → Bool
is_flash_ok flash_ok = true
is_flash_ok _ = false

-- The bytes of `[address, address + len)` are those of the answer, any other byte stays.
abbrev pub overwrite : (ℕ → ℕ) → ℕ → ℕ → List ℕ → ℕ → ℕ
overwrite memory address len cells a =
    if leb address a && ltb a (address + len)
    then u8 (get_or cells (a - address) 0xff)
    else memory a

-- The bytes `[address, address + n)`
abbrev pub bytes_at : (ℕ → ℕ) → ℕ → ℕ → List ℕ
bytes_at memory address zero = []
bytes_at memory address (suc n) = memory address ∷ bytes_at memory (suc address) n

-- The loop of `hal_flash_is_erased`
abbrev pub is_erased_loop : (ℕ → ℕ) → ℕ → ℕ → Bool
is_erased_loop memory address zero = true
is_erased_loop memory address (suc n) =
    let rest = is_erased_loop memory (suc address) n in
    if memory address != 0xff then false else rest

-- `hal_flash_is_erased`
unfoldable pub is_erased : (ℕ → ℕ) → ℕ → ℕ → Bool
is_erased memory address len =
    if not (range_valid address len) then false else is_erased_loop memory address len

-- An operation of the controller on `[address, address + len)`: the unlock, the operation and its
-- status, then the check of what is read back.
unfoldable pub operate : ℕ → ℕ → ((ℕ → ℕ) → Bool) → Flash → FlashStatus × Flash
operate address len verified f =
    let a = get_or f.answers 0 no_answer in
    let later : List Answer = drop 1 f.answers in
    let after = overwrite f.memory address len a.cells in
    if not (is_flash_ok (unlock a))
    then (unlock a, record f { answers = later })
    else if not (is_flash_ok (operation_status a))
    then (operation_status a, record { memory = after; answers = later })
    else (
      if verified after then flash_ok else flash_verify_error,
      record { memory = after; answers = later },
    )

-- `hal_flash_erase_page`
unfoldable pub erase_page : ℕ → Flash → FlashStatus × Flash
erase_page address f =
    if not (range_valid address flash_page_size) || (address % flash_page_size != 0)
    then (flash_bad_address, f)
    else operate address flash_page_size (λ m. is_erased m address flash_page_size) f

-- `*(uint16_t*)address`
abbrev pub halfword_at : (ℕ → ℕ) → ℕ → ℕ
halfword_at memory address = bit_or (memory (suc address) <<< 8) (memory address)

-- `hal_flash_program_halfword`
unfoldable pub program_halfword : ℕ → ℕ → Flash → FlashStatus × Flash
program_halfword address value f =
    if not (range_valid address 2) || (bit_and address 1 != 0)
    then (flash_bad_address, f)
    else if halfword_at f.memory address == value
    then (flash_ok, f)
    else if u16 (bit_and (halfword_at f.memory address) value) != value
    then (flash_program_error, f)
    else operate address 2 (λ m. halfword_at m address == value) f

-- `hal_flash_read` to a destination that is not `NULL`
unfoldable pub flash_read : (ℕ → ℕ) → ℕ → ℕ → Option (List ℕ)
flash_read memory address len =
    if not (range_valid address len) then none else some (bytes_at memory address len)
