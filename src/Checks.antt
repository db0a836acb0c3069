-- ===== src/Checks.antt =====
-- Tests of the definitions on small inputs, and the theorems at concrete inputs.
mod Demos
mod Toy
mod Witnesses
mod KernelWitnesses
mod JitWitnesses
mod EnterWitnesses
mod CompileWitnesses
mod GateWitnesses
mod Guests
mod SelfTests
mod NativeWitnesses
mod GatewayWitnesses
mod CheriWitnesses
mod OwnershipWitnesses
mod SpatialWitnesses
mod UnpreparedWitnesses
