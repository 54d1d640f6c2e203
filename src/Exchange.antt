-- ===== src/Exchange.antt =====
-- `utils::ValueExchange` and `utils::ValueExchangeBlocking`
-- (include/iec_core/utils/value_exchange.h). A pointer into `storage` is the slot it points to.
pub mod Apart
pub mod Interleaved
pub mod Refused
pub mod Blocking
pub mod Monitor
mod Tests
use bpf_program.Base.{Bool, true, false, Option, none, some, if◌then◌else◌}

pub data Slot : Type 0 where
  first second third : Slot

-- Whether two pointers are equal.
abbrev pub same : Slot → Slot → Bool
same first first = true
same second second = true
same third third = true
same _ _ = false

module _ {T : Type 0} where
  abbrev pub write : (Slot → Option T) → Slot → Option T → Slot → Option T
  write storage at content slot = if same slot at then content else storage slot

pub record ValueExchange (T : Type 0) : Type 0 where
  pub storage : Slot → Option T
  pub set_buffer : Slot
  pub buffer : Slot
  pub get_buffer : Slot

module _ {T : Type 0} where
  abbrev pub new : ValueExchange T
  new = record { storage = λ _. none; set_buffer = first; buffer = second; get_buffer = third }

  -- `set_buffer->emplace(std::move(value))`
  unfoldable pub emplace : ValueExchange T → T → ValueExchange T
  emplace e value = record e { storage = write e.storage e.set_buffer (some value) }

  -- `set_buffer = buffer.exchange(set_buffer)`, one atomic step
  unfoldable pub publish : ValueExchange T → ValueExchange T
  publish e = record e { set_buffer = e.buffer; buffer = e.set_buffer }

  -- `get_buffer = buffer.exchange(get_buffer)`, one atomic step
  unfoldable pub fetch : ValueExchange T → ValueExchange T
  fetch e = record e { get_buffer = e.buffer; buffer = e.get_buffer }

  -- `get_buffer->reset()`
  unfoldable pub clear : ValueExchange T → ValueExchange T
  clear e = record e { storage = write e.storage e.get_buffer none }

  -- The returned `bool` and the object afterwards.
  unfoldable pub set : ValueExchange T → T → Bool × ValueExchange T
  set e value = elim (e.storage e.set_buffer) [
    | none ↦ (true, publish (emplace e value))
    | some _ ↦ (false, e)
  ]

  -- The value that is moved out is `none` where `get` returns `false`.
  abbrev pub inspect : ValueExchange T → Option T × ValueExchange T
  inspect e = elim (e.storage e.get_buffer) [
    | none ↦ (none, e)
    | some value ↦ (some value, clear e)
  ]

  unfoldable pub get : ValueExchange T → Option T × ValueExchange T
  get e = inspect (fetch e)
