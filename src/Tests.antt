-- ===== src/Tests.antt =====
-- Runs of the model at concrete inputs, with the numbers of Base/Fixed.antt for float64.
mod Scores
mod Streams
mod Metadata
mod Brokers
mod Trackers
mod Builds
mod Loops
mod Lists
mod Sessions
mod Answers
mod Scrapes
mod Commands
