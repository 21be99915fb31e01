-- ===== src/Tests.antt =====
-- Concrete runs of the tools, and the theorems at concrete inputs.
mod Firmware
mod Pack
mod Bflt
mod PatchSeries
mod Hardware
mod Payload
mod Boot
mod Serial
mod UsbReset
mod Phases
mod Framebuffer
mod Preflight
mod Display
mod Handoff
mod Gate
mod Rate
mod Passing
mod Stress
mod Disconnect
