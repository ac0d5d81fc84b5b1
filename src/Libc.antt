-- ===== src/Libc.antt =====
-- What the sources use of the C library's strings and numbers, over byte lists.
pub mod Strings
pub mod Numbers
pub mod Bits
pub mod Decimal
pub mod Scan
pub mod Strtok
