-- ===== src/Log.antt =====
-- base/Logging.cpp, base/LogStream.cpp, base/FileUtil.cpp, base/AsyncLogging.cpp: how a log line is
-- built, handed to the logging thread and stored.
pub mod Convert
pub mod Stream
pub mod AppendFile
pub mod Async
pub mod Logger
