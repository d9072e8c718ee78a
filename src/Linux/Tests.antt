-- ===== src/Linux/Tests.antt =====
-- Runs of the functions of src/linux at concrete files, in a file system whose reads return at most
-- three bytes.
mod Lists
mod Values
