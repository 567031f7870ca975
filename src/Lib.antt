-- ===== src/Lib.antt =====
-- A J1939 traffic simulator for an STM32F1: it keeps a configuration of raw signal values, packs
-- the active ones into the PGNs of a generated catalog, and sends those on CAN at their periods,
-- the long ones by the BAM transport protocol. The development models the program's core.
--
-- The parts, from the wire up:
--   Frame       MID/j1939_frame.c: the 29-bit identifier and its header.
--   Codec       MID/j1939_encode_decode.c: raw values in a payload. `pack_raw`/`unpack_raw` are
--               J1939_Pack_Raw/J1939_Unpack_Raw; the by-bytes fast paths are `extract_raw_value`
--               and `write_raw_value`.
--   Crc         MID/j1939_crc32.c: CRC-32 of a byte stream.
--   Catalog     MID/j1939_signal_definitions.c: the tables of 179 signals and 60 PGNs, row by row,
--               and their lookups.
--   ValueStore  MID/j1939_value_store.c: two banks of values and a transaction between them. The
--               module's variable `s_vs` is the record `Store`; an operation returns its status
--               and the store after it. `ValueStore.Defs` has the state and the checks,
--               `ValueStore.Ops` the operations that stage, `ValueStore.Active` the commit and what reads
--               the active bank; the other modules are named for what they prove.
--   HalCan      HAL/hal_can_stm32f1.c: loading a mailbox and reading the receive FIFO. What the
--               hardware answers is part of the state: the list of its next answers.
--   HalFlash    HAL/hal_flash_stm32f1.c: erasing, programming and reading the profile slots. The
--               memory is a function of the address; the answers of the flash controller, and the
--               bytes that it leaves where it works, are a list in the state. A list that ends is
--               a controller without power.
--   Profiles    MID/j1939_customer_profiles.c: the table of the customers' profiles.
--   Storage     MID/j1939_profile_storage.c: the saved profile in two flash slots. `Storage.Defs`
--               has the image's layout, `Storage.Parse` the walk of prv_parse, `Storage.Ops` the
--               loading of a slot, `Storage.Build` prv_build_image, `Storage.Write` prv_write_slot
--               and `Storage.Save` the operations; the other modules are named for what they prove.
--   Link        MID/j1939_link.c: a PGN sent and received through the driver.
--   RxRouter    MID/j1939_rx_router.c: received frames handed to the control handler.
--   Tp          MID/j1939_tp.c: the BAM transmitter, a state machine on one session.
--   Scheduler   MID/j1939_tx_scheduler.c: `Sched` is the module's variables with the transport, the
--               controller and the store it works on. `Scheduler.Queue` is the transmit queue,
--               `Scheduler.Pack` the payload of a PGN, `Scheduler.Tick` one J1939_Sched_Tick and
--               `Scheduler.Setup` the adding of signals and the timers; the other modules are
--               named for what they prove.
--   Control     APP/app_control_can.c: the control protocol. `Control.Queue` is the ring of deferred
--               responses, `Control.Cache` the cache of answered requests, `Control.Commands` and
--               `Control.Status` the handlers of the opcodes and `Control.Frames`
--               prv_handle_control_frame. What the handlers call of the generator, the persistence
--               and the boot module is the interface `Control.Backend`.
--   Generator   APP/app_generator.h: what the persistence and the boot module call of the generator,
--               an interface on its state.
--   Persistence APP/app_persistence.c: saving the profile, and loading it through the generator's
--               transaction.
--   Boot        APP/app_boot.c: the restore at boot and the autostart. `Boot` is the record of the
--               module's variables.
--   Examples    the theorems at concrete inputs, and runs of the functions.
--
-- How they interact: a tick of the scheduler packs due PGNs from the store's active bank with the
-- codec, queues the short ones and hands the long ones to the transport; both send through Link,
-- and Link through HalCan. RxRouter takes frames from Link. The store reads the catalog and
-- computes its configuration CRC with Crc; it is filled through the
-- control protocol, whose handler RxRouter calls and which answers through Link; between them
-- stands APP/app_generator.c, which is not modelled. Storage builds its image from the store and the
-- catalog, and writes and reads it through HalFlash; Persistence hands the saved records to the
-- generator, and Boot decides with the result whether the generator may start.
--
-- Numbers are natural numbers; where the C type wraps, `u8`, `u16`, `u32`, `sub16` and `sub32`
-- wrap too (Base.Word). An array is the list of its elements; a read beyond the end, which no
-- caller makes, gives a default. A loop is a recursion on the rounds left or on the list; the
-- binary search of the catalog takes 61 rounds of fuel for 60 entries, and every round shortens its
-- range. The loops of the scheduler recurse on the entries or frames that are left.
--
-- Not modelled: floating point (physical values, waveforms, the scale table), register accesses,
-- text input and output, and the debug variables; none of which the modelled state depends on.
-- The default build is modelled: no waveform engine, 60 PGNs and 179 signals.
pub mod Base
pub mod Boot
pub mod Frame
pub mod Codec
pub mod Crc
pub mod Catalog
pub mod ValueStore
pub mod HalCan
pub mod HalFlash
pub mod Profiles
pub mod Storage
pub mod Control
pub mod Generator
pub mod Persistence
pub mod Link
pub mod RxRouter
pub mod Tp
pub mod Examples
pub mod Scheduler
