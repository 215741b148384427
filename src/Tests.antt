-- ===== src/Tests.antt =====
-- Runs of the definitions on concrete inputs, and the theorems at concrete inputs.
mod Frames
mod Filters
mod Cobs
mod Messages
mod Muxes
mod Sdos
mod SdoClients
mod SdoUploads
mod Networks
mod Loopbacks
mod SyncWriters
mod Buses
mod Numbers
mod Kernels
mod Sockets
mod Interfaces
mod Subscriptions
