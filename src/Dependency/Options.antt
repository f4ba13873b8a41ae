-- ===== src/Dependency/Options.antt =====
-- rules/dependency/option.go and the list of denied calls of no_side_effect_call_in_core.go.
use go_arch_guard.Prelude.{String, not, List, [], ◌∷◌, ◌==◌, filter}
use go_arch_guard.Core.Violation.{Severity}

pub record RuleConfig : Type 0 where
  pub severity : Severity
  pub inspected_layers : List String
  pub denied_calls : List String
  pub allowed_calls : List String

pub data ConfigOption : Type 0 where
  with_severity : Severity → ConfigOption
  with_inspected_layers : List String → ConfigOption
  with_denied_calls : List String → ConfigOption
  with_allowed_calls : List String → ConfigOption

unfoldable pub non_blank_strings : List String → List String
unfolding filter
non_blank_strings xs = filter (λ s. not (s == "")) xs

unfoldable pub apply_option : ConfigOption → RuleConfig → RuleConfig
unfolding non_blank_strings
apply_option (with_severity severity) cfg = record cfg { severity = severity }
apply_option (with_inspected_layers xs) cfg = record cfg { inspected_layers = non_blank_strings xs }
apply_option (with_denied_calls xs) cfg = record cfg { denied_calls = non_blank_strings xs }
apply_option (with_allowed_calls xs) cfg = record cfg { allowed_calls = non_blank_strings xs }

apply_options : List ConfigOption → RuleConfig → RuleConfig
unfolding apply_option
apply_options [] cfg = cfg
apply_options (o ∷ os) cfg = apply_options os (apply_option o cfg)

abbrev pub default_denied_calls : List String
default_denied_calls =
    "time.Now" ∷ "time.Since" ∷ "time.Until" ∷ "time.After" ∷ "os.Getenv" ∷ "os.LookupEnv"
    ∷ "os.ReadFile" ∷ "os.WriteFile" ∷ "os.Open" ∷ "os.OpenFile" ∷ "os.Create" ∷ "os.CreateTemp"
    ∷ "os.Mkdir" ∷ "os.MkdirAll" ∷ "os.MkdirTemp" ∷ "os.Remove" ∷ "os.RemoveAll" ∷ "os.Rename"
    ∷ "os.Truncate" ∷ "os.Chmod" ∷ "os.Chown" ∷ "os.Chtimes" ∷ "os.Link" ∷ "os.Symlink"
    ∷ "log.Print" ∷ "log.Printf" ∷ "log.Println" ∷ "log.Fatal" ∷ "log.Fatalf" ∷ "log.Fatalln"
    ∷ "log.Panic" ∷ "log.Panicf" ∷ "log.Panicln" ∷ "math/rand.*" ∷ "crypto/rand.Read"
    ∷ "net/http.Get" ∷ "net/http.Head" ∷ "net/http.Post" ∷ "net/http.PostForm"
    ∷ "net/http.(*Client).*" ∷ []

unfoldable pub new_config : List ConfigOption → Severity → RuleConfig
unfolding apply_options
new_config opts severity = apply_options opts (record {
  severity = severity;
  inspected_layers = [];
  denied_calls = default_denied_calls;
  allowed_calls = [];
})
