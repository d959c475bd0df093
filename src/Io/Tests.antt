-- ===== src/Io/Tests.antt =====
-- Messages of the sample machine.
use yack.Common.{refl, arith, [], ◌∷◌, false}
use yack.Machine.{Machine}
use yack.Format.{word, codes, string_arg}
use yack.Io.{klog, kassert, panic}
use yack.Screen.Typing.{Shows}
use yack.Format.Rendered.{rendered, piece, before}
use yack.Io.Written.{IsOnLine, Writes}
use yack.Io.Messages.{
  message, panic_text, assert_text, Hangs, klog-Written, panic-Hangs, kassert-Hangs,
}
use yack.Samples.Prompt.{paper, paper-IsStarted, prompted, prompted-Shows, prompted-IsOnLine}
use yack.Samples.{sample, sample-IsReady}

abbrev prompt : Machine
prompt = prompted sample

prompt-Shows : Shows paper prompt
prompt-Shows = prompted-Shows sample

prompt-IsOnLine : IsOnLine prompt
prompt-IsOnLine = prompted-IsOnLine sample sample-IsReady refl (λ _. omega arith)

klog-Written_example :
    Writes tt
      (message (codes "TRAP") (codes "Letter: A\n"))
      paper
      prompt
      (klog (codes "TRAP") (codes "Letter: %c\n") (word 65 ∷ []) prompt)
klog-Written_example =
    klog-Written (codes "TRAP") (codes "Letter: %c\n") (word 65 ∷ []) (codes "Letter: A\n") paper
      prompt (omega arith, tt) (unfold rendered piece before in refl) (omega arith) (omega arith)
      prompt-IsOnLine paper-IsStarted prompt-Shows

panic-Hangs_example :
    Hangs
      (panic_text (codes "out of pages"))
      paper
      prompt
      (panic (codes "out of %s") (string_arg "pages" ∷ []) prompt)
panic-Hangs_example =
    panic-Hangs (codes "out of %s") (string_arg "pages" ∷ []) (codes "out of pages") paper prompt
      (omega arith, tt) (unfold rendered piece before in refl) (omega arith) prompt-IsOnLine
      paper-IsStarted prompt-Shows

kassert-Hangs_example :
    Hangs
      (assert_text (codes "kvm.c") 31 (codes "pagedir != NULL"))
      paper
      prompt
      (kassert false (codes "kvm.c") 31 (codes "pagedir != NULL") prompt)
kassert-Hangs_example =
    kassert-Hangs (codes "kvm.c") 31 (codes "pagedir != NULL") paper prompt (omega arith)
      (omega arith) prompt-IsOnLine paper-IsStarted prompt-Shows
