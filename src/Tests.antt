-- ===== src/Tests.antt =====
-- Runs of the model on concrete inputs, and each theorem at an input that meets its hypotheses.
mod Db
mod Khaos
mod Resource
mod Tvm
mod Merkle
mod Address
mod Machine
mod Node
mod Actuator
