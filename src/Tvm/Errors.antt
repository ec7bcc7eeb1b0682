-- ===== src/Tvm/Errors.antt =====
-- The faults of internal/tvm: the error values of stack.go, energy.go, interpreter.go and
-- staking_ops.go. `go_panic` stands for a panic, which the source does not catch.
pub data Error : Type 0 where
  stack_underflow stack_overflow : Error
  out_of_energy : Error
  invalid_opcode : Error
  bad_jump_dest : Error
  memory_overflow : Error
  gas_uint_overflow : Error
  static_state_change : Error
  return_data_out_of_bounds : Error
  staking_op_deferred : Error
  go_panic : Error
