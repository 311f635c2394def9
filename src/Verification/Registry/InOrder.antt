-- ===== src/Verification/Registry/InOrder.antt =====
-- A database that scans the rows in order keeps the promises of a SELECT.
use discovery_application.Base.{
  take, keep, In, All-In, keep_sound, keep_complete, take_sound, take_short, length-take-le, subst,
  sym,
}
use discovery_application.Verification.Registry.{IsEngine, in_order}

pub in_order-IsEngine : {R : Type 0} → IsEngine (in_order {R = R})
in_order-IsEngine = record {
  sound = λ p n rows.
      All-In _ (take n (keep p rows)) (λ r i. keep_sound p rows r (take_sound n (keep p rows) r i));
  limited = λ p n rows. length-take-le n (keep p rows);
  complete = λ p n rows short r i h.
      subst (λ xs. In r xs) (sym (take_short n (keep p rows) short)) (keep_complete p rows r i h);
}
