-- ===== src/Bot/Handlers/Tests.antt =====
-- Messages to the handlers of internal/bot/handlers, on the cluster and the server of the other tests.
use chatops.Bot.Handlers.Others.{Tables}
use chatops.Base.{[], ◌∷◌, String, ℕ, false, arith, ◌≡◌, List, pos, negsuc}
use chatops.Kube.Tests.{calm}
use chatops.Bot.Handlers.Kube.{scale_handler}
use chatops.Bot.Handlers.Kube.Laws.{command, scale_handler-Apart}
use chatops.Bot.Handlers.Kube.Scaled.{Scaled, scale_handler-Scaled}
use chatops.Kube.Log.{K8sClient, clientset}
use chatops.Bot.Handlers.Chat.{Chat}
use chatops.Bot.Handlers.Markdown.{shown, has_markup, escape_markdown}
use chatops.Go.Strings.Split.{Lacks}
use chatops.Go.Numbers.{format_int}
use chatops.Kube.Types.{Deployment}
use chatops.Bot.Handlers.Markdown.Laws.{shown-escape_markdown}
use chatops.Effects.{ok}
use chatops.Bot.YandexGpt.{Gpt}

abbrev log_chat : Chat (List String)
log_chat = record { send = λ m s. (ok tt, m ∷ s); send_markdown = λ m s. (ok tt, m ∷ s) }

abbrev no_timeout : {W : Type 0} → ℕ → W → W
no_timeout n w = w

abbrev k8s : K8sClient Deployment
k8s = clientset calm

scale_handler-Scaled_example : Scaled k8s no_timeout log_chat "/scale shop/web 3"
scale_handler-Scaled_example = scale_handler-Scaled k8s no_timeout log_chat "/scale shop/web 3"

word_Lacks : Lacks " " "/scale"
word_Lacks = ground arith

shop_Lacks : Lacks " " "shop"
shop_Lacks = ground arith

slash_Lacks : Lacks "/" "shop"
slash_Lacks = ground arith

web_Lacks : Lacks " " "web"
web_Lacks = ground arith

scale_handler-Apart_example :
    scale_handler k8s no_timeout log_chat
      (command "/scale" "shop" "web" (format_int (pos 4294967295)))
    ≡ scale_handler k8s no_timeout log_chat (command "/scale" "shop" "web" (format_int (negsuc 0)))
scale_handler-Apart_example =
    scale_handler-Apart k8s no_timeout log_chat "/scale" "shop" "web" word_Lacks shop_Lacks
      slash_Lacks web_Lacks 1 (pos 4294967295) (negsuc 0) (record { parts = omega arith })
      (omega arith) (omega arith)

plain_Lacks : Lacks "\\" "web-1.shop"
plain_Lacks = ground arith

shown-escape_markdown_example :
    (shown false (escape_markdown "web-1.shop") ≡ "web-1.shop")
    × (has_markup false (escape_markdown "web-1.shop") ≡ false)
shown-escape_markdown_example = shown-escape_markdown "web-1.shop" plain_Lacks

abbrev starred : String
starred = "\\*bold*"

abbrev no_tables : Tables (Unit {0})
no_tables = record {
  find_incidents = λ w. (ok [], w);
  find_operations = λ w. (ok [], w);
  format_time = λ t. "";
}

abbrev echo : Gpt (Unit {0})
echo = record {
  read_prompt = λ w. (ok "prompt", w);
  get_env = λ name. name;
  get_completion = λ key catalog prompt question w. (ok (question ∷ []), w);
}
