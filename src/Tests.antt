-- ===== src/Tests.antt =====
-- Concrete runs of the models, and the theorems at concrete inputs.
mod Redis
mod Numbers
mod Resp
mod Charset
mod Io
mod Net
mod Files
mod Streams
mod Bits
mod Json
mod Protocols
mod Headers
mod Utf8
