-- ===== src/Http.antt =====
-- What the proxy uses of Go's errors, of package io and of package net/http.
pub mod Error
pub mod Writer
pub mod Header
pub mod Status
pub mod Chunked
pub mod Framing
pub mod Message
