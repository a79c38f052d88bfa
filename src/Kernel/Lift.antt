-- ===== src/Kernel/Lift.antt =====
-- Calls between the parts of the kernel: what a call returns, and sequences of calls.
use macac_os.Base.{◌≡◌, ap, ◌∙◌, Outcome, returns, fault, hang, Cmd, and_then, zoom}
use macac_os.Scheduler.{Scheduler}
use macac_os.Children.{Family, on_scheduler}
use macac_os.Kernel.{Kernel, on_family, on_table}

module _ {S A B : Type 0} where
  -- After a call that returned, the rest.
  pub next-step :
      (g : A → Cmd S B) {o : Outcome S A} {a : A} {s : S} {r : Outcome S B}
      → o ≡ returns a s
      → g a s ≡ r
      → and_then o g ≡ r
  next-step g e f = ap (λ o. and_then o g) e ∙ f

  -- A call that faults ends what follows it as well.
  pub fault-step : (g : A → Cmd S B) {o : Outcome S A} → o ≡ fault → and_then o g ≡ fault
  fault-step g e = ap (λ o. and_then o g) e

module _ {S T A : Type 0} (get : S → T) (put : T → S → S) (m : Cmd T A) where
  pub zoom-returns :
      (s : S) {a : A} {t : T} → m (get s) ≡ returns a t → zoom get put m s ≡ returns a (put t s)
  zoom-returns s e =
      ap (λ o. elim o [ returns a t ↦ returns a (put t s) | fault ↦ fault | hang ↦ hang ]) e

module _ {A : Type 0} where
  pub on_scheduler-returns :
      (m : Cmd Scheduler A) (f : Family) (a : A) (s : Scheduler)
      → m f.scheduler ≡ returns a s
      → on_scheduler m f ≡ returns a (record f { scheduler = s })
  on_scheduler-returns m f a s e =
      ap
        (λ o. elim o [
          | returns a s ↦ returns a (record f { scheduler = s })
          | fault ↦ fault
          | hang ↦ hang
        ])
        e

  pub on_family-returns :
      (m : Cmd Family A) (k : Kernel) (a : A) (f : Family)
      → m k.family ≡ returns a f
      → on_family m k ≡ returns a (record k { family = f })
  on_family-returns m k a f e =
      ap
        (λ o. elim o [
          | returns a f ↦ returns a (record k { family = f })
          | fault ↦ fault
          | hang ↦ hang
        ])
        e

  pub on_table-returns :
      (m : Cmd Scheduler A) (k : Kernel) (a : A) (s : Scheduler)
      → m k.family.scheduler ≡ returns a s
      → on_table m k ≡ returns a (record k { family = record (k.family) { scheduler = s } })
  on_table-returns m k a s e =
      on_family-returns (on_scheduler m) k a _ (on_scheduler-returns m k.family a s e)
