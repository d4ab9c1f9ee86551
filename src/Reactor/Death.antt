-- ===== src/Reactor/Death.antt =====
-- `signal_death` of the pool, and what is submitted afterwards.
use kvikio.Base.{Error}
use kvikio.Reactor.{Transfer, Report, subrange_failed}

abbrev pub failure : Error → Transfer → Report
failure e t = subrange_failed t.easy e
