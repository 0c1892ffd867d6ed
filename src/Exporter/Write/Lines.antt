-- ===== src/Exporter/Write/Lines.antt =====
-- The lines of a scrape, as a reader of the exposition format splits them.
use qnapexporter.Base.{
  ℕ, ◌++◌, ◌/◌, ◌==◌, List, [], ◌∷◌, if◌then◌else◌, is_empty, All, All-append, IsOneLine,
  Bool-cases, inl, inr, append-nil, append_assoc, split, split_lines, split-line, format_nat,
  format_nat-IsOneLine, newline, Text, codes, ◌≡◌, ◌≢◌, refl, ap, sym, ◌∙◌, arith,
}
use mathlib.Core.Path.{subst}
use qnapexporter.Exporter.Errors.{Error}
use qnapexporter.Exporter.Metric.{
  FloatOps, Metric, get_metric_full_name, write_metric_metadata, write_metric,
}
use qnapexporter.Exporter.Metric.Quote.{quote}
use qnapexporter.Exporter.Metric.Quote.Line.{quote-IsOneLine}
use qnapexporter.Exporter.Write.{
  Message, metrics, failure, Written, write_all, nothing_written, receive, receive_all,
  write_messages,
}

-- In front of any other text, the text gives these lines.
pub record Prints (text : Text) (lines : List Text) : Type 0 where
  pub before : (rest : Text) → split_lines (text ++ rest) ≡ lines ++ split_lines rest

-- The text is the line and a newline.
record Ends (text line : Text) : Type 0 where
  whole : text ≡ line ++ codes "\n"
  one_line : IsOneLine line

nothing-Prints : Prints [] []
nothing-Prints = record { before = λ rest. refl }

Prints-append : (s t : Text) (k l : List Text) → Prints s k → Prints t l → Prints (s ++ t) (k ++ l)
Prints-append s t k l p q = record {
  before = λ rest.
      ap split_lines (append_assoc s t rest)
      ∙ p.before (t ++ rest)
      ∙ ap (λ x. k ++ x) (q.before rest)
      ∙ sym (append_assoc k l (split_lines rest));
}

Ends-Prints : (text line : Text) → Ends text line → Prints text (line ∷ [])
Ends-Prints text line h = record {
  before = λ rest.
      ap (λ x. split_lines (x ++ rest)) h.whole
      ∙ ap split_lines (append_assoc line (codes "\n") rest)
      ∙ ap (λ x. x.0 ∷ x.1) (split-line line rest h.one_line);
}

newline-Ends : Ends (codes "\n") []
newline-Ends = record { whole = refl; one_line = tt }

Ends-append : (s t line : Text) → IsOneLine s → Ends t line → Ends (s ++ t) (s ++ line)
Ends-append s t line h e = record {
  whole = ap (λ x. s ++ x) e.whole ∙ sym (append_assoc s line (codes "\n"));
  one_line = All-append _ s line h e.one_line;
}

last-Ends : (s : Text) → IsOneLine s → Ends (s ++ codes "\n") s
last-Ends s h = record { whole = refl; one_line = h }

module _ {F : Type 0} (ops : FloatOps F) (show : Error → Text) (hostname : Text) where
  -- What the metric brings along has no newline.
  pub record IsPlain (m : Metric F) : Type 0 where
    pub name_line : IsOneLine m.name
    pub attr_line : IsOneLine m.attr
    pub help_line : IsOneLine m.help
    pub type_line : IsOneLine m.metric_type
    pub value_line : IsOneLine (ops.format_g m.value)

  abbrev pub ArePlain : Message F → Type 0
  ArePlain (metrics ms) = All IsPlain ms
  ArePlain (failure e) = IsOneLine (show e)

  -- A comment with the help and one with the type, where there are any, and one line with the value.
  pub metric_lines : Metric F → List Text
  metric_lines m =
      (if is_empty m.help then [] else (codes "# HELP " ++ (m.name ++ (codes " " ++ m.help))) ∷ [])
      ++ ((if is_empty m.metric_type
            then []
            else (codes "# TYPE " ++ (m.name ++ (codes " " ++ m.metric_type))) ∷ [])
          ++ (get_metric_full_name hostname m
              ++ (codes " "
                  ++ (ops.format_g m.value
                      ++ (codes " "
                          ++ (if m.timestamp == 0
                              then []
                              else format_nat (m.timestamp / 1_000_000))))))
            ∷ [])

  pub all_lines : List (Metric F) → List Text
  all_lines [] = []
  all_lines (m ∷ ms) = metric_lines m ++ all_lines ms

  pub message_lines : List (Message F) → List Text
  message_lines [] = []
  message_lines (metrics ms ∷ rest) = all_lines ms ++ message_lines rest
  message_lines (failure e ∷ rest) = (codes "## " ++ show e) ∷ message_lines rest

  space : IsOneLine (codes " ")
  space = (ground arith, tt)

  full_name-line : (m : Metric F) → IsPlain m → IsOneLine (get_metric_full_name hostname m)
  unfolding get_metric_full_name
  full_name-line m h = elim (Bool-cases (is_empty m.attr)) [
    | inl bare ↦ rw bare (front (codes "}") (ground arith))
    | inr more ↦ rw more (front (codes "," ++ (m.attr ++ codes "}")) (ground arith, attributes))
  ]
    where
      join : (s t : Text) → IsOneLine s → IsOneLine t → IsOneLine (s ++ t)
      join = All-append (λ c. c ≢ newline)

      attributes : IsOneLine (m.attr ++ codes "}")
      attributes = join m.attr (codes "}") h.attr_line (ground arith)

      front :
          (back : Text)
          → IsOneLine back
          → IsOneLine (m.name ++ (codes "{node=" ++ (quote hostname ++ back)))
      front back b = join m.name (codes "{node=" ++ (quote hostname ++ back)) h.name_line (
          join (codes "{node=") (quote hostname ++ back) (ground arith)
            (join (quote hostname) back (quote-IsOneLine hostname) b))

  abbrev comment : Text → Text → Text → Text
  comment title name text =
      if is_empty text then [] else title ++ (name ++ (codes " " ++ (text ++ codes "\n")))

  comment-Prints :
      (title name text : Text)
      → IsOneLine title
      → IsOneLine name
      → IsOneLine text
      → Prints
          (comment title name text)
          (if is_empty text then [] else (title ++ (name ++ (codes " " ++ text))) ∷ [])
  comment-Prints title name [] ht hn h = nothing-Prints
  comment-Prints title name (c ∷ text) ht hn h = Ends-Prints _ _ (
      Ends-append title _ _ ht
        (Ends-append name _ _ hn (Ends-append (codes " ") _ _ space (last-Ends (c ∷ text) h))))

  timestamp-line : (n : ℕ) → IsOneLine (if n == 0 then [] else format_nat (n / 1_000_000))
  timestamp-line n = elim (Bool-cases (n == 0)) [
    | inl none ↦ rw none tt
    | inr set ↦ rw set (format_nat-IsOneLine (n / 1_000_000))
  ]

  write_metric-Prints :
      (m : Metric F) → IsPlain m → Prints (write_metric ops hostname m) (metric_lines m)
  unfolding write_metric write_metric_metadata get_metric_full_name metric_lines
  write_metric-Prints m h =
      let name = get_metric_full_name hostname m in
      let value = ops.format_g m.value in
      let stamp : Text = if m.timestamp == 0 then [] else format_nat (m.timestamp / 1_000_000) in
      let help = comment (codes "# HELP ") m.name m.help in
      let type = comment (codes "# TYPE ") m.name m.metric_type in
      let printed = name ++ (codes " " ++ (value ++ (codes " " ++ (stamp ++ codes "\n")))) in
      let sample = Ends-append name _ _ (full_name-line m h) (
        Ends-append (codes " ") _ _ space (
          Ends-append value _ _ h.value_line
            (Ends-append (codes " ") _ _ space (last-Ends stamp (timestamp-line m.timestamp))))) in
      subst (λ x. Prints x (metric_lines m)) (sym (append_assoc help type printed))
        (Prints-append _ _ _ _
          (comment-Prints (codes "# HELP ") m.name m.help (ground arith) h.name_line h.help_line)
          (Prints-append _ _ _ _
            (comment-Prints (codes "# TYPE ") m.name m.metric_type (ground arith) h.name_line
              h.type_line)
            (Ends-Prints _ _ sample)))

  write_all-Prints :
      (ms : List (Metric F))
      → All IsPlain ms
      → Prints (write_all ops show hostname ms) (all_lines ms)
  unfolding write_all all_lines
  write_all-Prints [] h = nothing-Prints
  write_all-Prints (m ∷ ms) (plain, h) =
      Prints-append _ _ _ _ (write_metric-Prints m plain) (write_all-Prints ms h)

  receive_all-Prints :
      (r : Written) (ms : List (Message F)) (lines : List Text)
      → Prints r.output lines
      → All ArePlain ms
      → Prints (receive_all ops show hostname r ms).output (lines ++ message_lines ms)
  unfolding receive_all receive message_lines
  receive_all-Prints r [] lines p h = subst (λ x. Prints r.output x) (sym (append-nil lines)) p
  receive_all-Prints r (metrics ms ∷ rest) lines p (plain, h) =
      subst (λ x. Prints (receive_all ops show hostname r (metrics ms ∷ rest)).output x)
        (append_assoc lines (all_lines ms) (message_lines rest))
        (receive_all-Prints (receive ops show hostname r (metrics ms)) rest (lines ++ all_lines ms)
          (Prints-append r.output _ lines _ p (write_all-Prints ms plain)) h)
  receive_all-Prints r (failure e ∷ rest) lines p (plain, h) =
      let line = codes "## " ++ show e in
      let reported = Ends-append (codes "## ") _ _ (ground arith) (last-Ends (show e) plain) in
      subst (λ x. Prints (receive_all ops show hostname r (failure e ∷ rest)).output x)
        (append_assoc lines (line ∷ []) (message_lines rest))
        (receive_all-Prints (receive ops show hostname r (failure e)) rest (lines ++ line ∷ [])
          (Prints-append r.output _ lines _ p (Ends-Prints _ _ reported)) h)

  -- If no name, attribute text, help, type, value or error report that the workers send has a newline,
  -- the lines of the output are, in the order of the messages, those of each metric, which are a HELP
  -- comment and a TYPE comment where the metric has them and its sample, and one comment for each failure;
  -- whatever the host name is.
  pub write_messages-lines :
      (ms : List (Message F))
      → All ArePlain ms
      → split_lines (write_messages ops show hostname ms).output ≡ message_lines ms ++ [] ∷ []
  unfolding split
  write_messages-lines ms h =
      let out = (write_messages ops show hostname ms).output in
      ap split_lines (sym (append-nil out))
      ∙ (receive_all-Prints nothing_written ms [] nothing-Prints h).before []
