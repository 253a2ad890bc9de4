-- ===== src/Server/Reports/Keeps.antt =====
-- The error reports of server/serve.go only write through the session's writers.
use hislip.Prelude.{Option, none, some}
use hislip.Errors.{Error}
use hislip.Server.Session.{Writer}
use hislip.Server.State.{State, M, Side, writer_of}
use hislip.Server.State.Keeps.{IsStable, Keeps, keeping}
use hislip.Server.Reports.{
  ignored, guarded, if_writer, end_with, report_read_error, report_accept_error,
  report_operation_error,
}

module _ {D : Type 0} {P : State D → Type 0} (stable : IsStable P) where
  pub ignored-Keeps : {m : M D (Unit {0})} → Keeps P m → Keeps P (ignored m)
  ignored-Keeps k = record { after = λ s p. k.after s p }

  guarded-Keeps :
      (w : Option Writer) (m : M D (Unit {0})) (s : State D) → Keeps P m → P s → P (guarded w m s).1
  guarded-Keeps none m s k p = p
  guarded-Keeps (some w) m s k p = k.after s p

  if_writer-Keeps : (side : Side) {m : M D (Unit {0})} → Keeps P m → Keeps P (if_writer side m)
  if_writer-Keeps side {m} k = record {
    after = λ s p. guarded-Keeps (writer_of side s.sess) m s k p;
  }

  end_with-Keeps : (side : Side) (e : Error) → Keeps P (end_with side e)
  end_with-Keeps side e = search (keeping, ignored-Keeps, if_writer-Keeps)

  pub read_error-Keeps : (side : Side) (e : Error) → Keeps P (report_read_error side e)
  unfolding report_read_error
  read_error-Keeps side e = search (keeping, if_writer-Keeps)

  pub operation_error-Keeps : (side : Side) (e : Error) → Keeps P (report_operation_error side e)
  unfolding report_operation_error
  operation_error-Keeps side e = search (keeping, if_writer-Keeps, end_with-Keeps)

  pub accept_error-Keeps : (side : Side) (e : Error) → Keeps P (report_accept_error side e)
  unfolding report_accept_error
  accept_error-Keeps side e = search (keeping, if_writer-Keeps, end_with-Keeps)
