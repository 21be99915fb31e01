-- ===== src/Lib.antt =====
-- MicroNUX host tools: a model of the Python programs that make, check and accept the images of the
-- ESP32-P4 Linux platform, with theorems on what they accept and what they write.
--
-- The parts. generate_firmware.py turns the display's command source into a binary artifact that the
-- kernel's panel driver loads; m3-pack.py checks the kernel Image and the device tree and writes the
-- manifest that the loader trusts; check-bflt-wx.py and check-linux-patch-series.py are gates of the
-- build. m9-hardware-test.py judges what a board prints, against the files that were packed, and
-- usb-reset-arm.py asks a running board for a reset. Each is a function from what it reads to what it
-- writes, returns or raises.
--
-- Firmware, and its children: buildroot-external/package/micronux-jd9365-firmware/generate_firmware.py.
--   Source has `_integer` (`integer_of`), `_record` (`read_record`) and `normalize_source`; Build has
--   `build_blob`; Parse has `parse_blob`, whose loop is `parse_records`. Encoding and Valid say what an
--   artifact is, independently of the code.
-- Pack: scripts/m3-pack.py. `read_image`, `read_dtb`, `make_manifest`; `pack` is the part of `main`
--   between reading the inputs and writing the output.
-- Bflt: scripts/check-bflt-wx.py. `validate`; `audit` is `main` over the paths of the tree.
-- PatchSeries: scripts/check-linux-patch-series.py. `validate_series`, `validate_config_boundaries`;
--   `manifest` is the part of `main` up to the manifest's lines.
-- Hardware, and its children: scripts/m9-hardware-test.py. Samples has the two line patterns and
--   `scanout_samples`, `diagnostics_samples`; Contract has the contract functions, whose shared body is
--   `contract_problem` over the list of checks of a sample and the list of counters.
--   Payload has `verify_boot_payload`, Boot has `boot_contract_problem`, and Serial has the waits
--   `wait_for_shell`, `wait_for_prompt` and `run_command`, whose common loop is `wait`. Phases has
--   `diagnostics_phase_groups` and `diagnostics_phase_problem`, Framebuffer has
--   `framebuffer_hash_problem` and `runtime_status_problem`, and Preflight has `run_preflight`, over the
--   board's answer to each command. Identity has `verify_runtime_identity`, Touch has
--   `wait_for_touch_terminal` and `run_touch`, Soak, Stress and Snapshot have `run_soak`, `run_stress` and
--   `run_snapshot`; the module Commands of each has the shell command that it sends, and `judge_...` is the
--   rest of the handler, over the command's result. Reconnect has `recover_reconnect_prompt`, over what the
--   port does in each round; Rate has `disconnect_progress_rate`, Disconnect has `run_disconnect`, and Gate
--   has `main`, over the outcomes of what it calls (`Bench`).
-- UsbReset: scripts/usb-reset-arm.py. `arm` is the loop of `main` with its bounded capture (`trim`).
-- Display, and its children: the model part of scripts/m9-2-display-contract-test.py. Ownership has
--   `OwnershipModel`; its Mailbox is the abstract view of the three buffers. Layout has the memory map and the
--   checks on the frames, Cold the ABI v3 record (`make_cold_relinquish`, `validate_cold_relinquish`), and
--   Live the ABI v2 record (`make_handoff`, `validate_handoff`); a validator is split at the groups of its
--   statements, in their order. The dictionary of a record's values is a record of numbers; a keyword
--   argument of a maker is a changed field.
-- Base: Python's exceptions as values (`Result`), `struct` (Bytes), `int(text, 0)` and
--   `bytes.fromhex` (Numbers), JSON values (Json), text methods (Strings), the used constructs of `re`
--   (Regex), `str.find` (Find), doubles (Floats), `bytes.decode` (Utf8), `zlib.crc32` (Crc32) and
--   `hashlib.sha256` (Sha256), each executable.
--
-- Choices. Python integers are native numbers, or ℤ where the code can meet a negative one; a `str`
-- or `bytes` is the list of its code points or byte values, and hypotheses `All IsByte` say that a
-- list is a byte string. A raised exception is a value that names its message and the message's
-- parameters. Loops over collections are recursions on them; the search of `re.finditer` has fuel, one
-- round for each character of the text and one more, since each round takes a character.
-- `int(text, 0)` and `\d` are modelled on ASCII texts. Times are in milliseconds.
--
-- A serial port is the list of the chunks that it gives before a wait's deadline, so that a wait is a
-- recursion on that list. The return values `None` and a message are `none` and a constructor.
--
-- Not modelled: argument parsing, reading and writing of files and the printed summaries; the calls of
-- pyserial and esptool in m9-hardware-test.py, whose outcomes are parameters; the run logger, the gates of
-- earlier milestones, and the comparisons of source texts in m9-2-display-contract-test.py; the C, shell and
-- patch files.
pub mod Base
pub mod Firmware
pub mod Pack
pub mod Bflt
pub mod PatchSeries
pub mod Hardware
pub mod UsbReset
pub mod Display
mod Tests
