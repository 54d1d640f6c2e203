-- ===== src/Engine/Native.antt =====
-- `NativeEngine` of include/iec_core/engines/native_engine.h, which is a stub.
use bpf_program.Base.{Bool, false, ℕ}
use bpf_program.Engine.Setup.{EngineSettings}

pub record NativeEngine : Type 0 where
  pub temp : ℕ

abbrev pub setup_native : EngineSettings → NativeEngine → Bool × NativeEngine
setup_native settings e = (false, record e { temp = 1 })

abbrev pub run_native : NativeEngine → NativeEngine
run_native e = e
