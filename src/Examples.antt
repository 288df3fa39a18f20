-- ===== src/Examples.antt =====
-- Tests and example runs of the modelled code.
mod Codecs
mod Tables
mod Evaluation
mod Review
mod Service
mod Recording
mod ToyLibrary
mod ToyLaws
mod Tokens
mod Refreshes
mod Requests
mod Layers
