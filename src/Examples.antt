-- ===== src/Examples.antt =====
-- The theorems at concrete inputs.
mod Recv
mod Server
mod Logic
mod Text
mod Pool
mod Conf
mod Worker
mod Log
mod Signals
mod ReadTest
mod Stopping
mod Process
