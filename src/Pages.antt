-- ===== src/Pages.antt =====
-- The pages' fixed texts: djb_html_css, djb_html_top and djb_html_tail (server/djb.c).
pub mod Tables
pub mod Status
pub mod Listing
use jumpbox.Base.{ℕ, List, [], ◌∷◌, ◌++◌, Text, txt}
use jumpbox.Http.{Event, expire, put, long}

abbrev pub joined : List Text → Text
joined [] = []
joined (t ∷ ts) = t ++ joined ts

unfoldable pub css_text : List Text
css_text =
    txt "/* JumpBox CSS */\n"
    ∷ txt "form label\n"
    ∷ txt "{\n"
    ∷ txt "\tfloat\t\t: left;\n"
    ∷ txt "\twidth\t\t: 120px;\n"
    ∷ txt "\tfont-weight\t: bold;\n"
    ∷ txt "}\n"
    ∷ txt "\n"
    ∷ txt "input, textarea\n"
    ∷ txt "{\n"
    ∷ txt "\tmargin-bottom\t: 5px;\n"
    ∷ txt "}\n"
    ∷ txt "\n"
    ∷ txt "textarea\n"
    ∷ txt "{\n"
    ∷ txt "\twidth\t\t: 250px;\n"
    ∷ txt "\theight\t\t: 150px;\n"
    ∷ txt "}\n"
    ∷ txt "\n"
    ∷ txt "form input[type=submit]\n"
    ∷ txt "{\n"
    ∷ txt "\tmargin-left\t: 120px;\n"
    ∷ txt "\tmargin-top\t: 5px;\n"
    ∷ txt "\twidth\t\t: 90px;\n"
    ∷ txt "}\n"
    ∷ txt "form br\n"
    ∷ txt "{\n"
    ∷ txt "\tclear\t\t: left;\n"
    ∷ txt "}\n"
    ∷ txt "\n"
    ∷ txt "th\n"
    ∷ txt "{\n"
    ∷ txt "\tbackground-color: #eeeeee;\n"
    ∷ txt "}\n"
    ∷ txt "\n"
    ∷ txt ".header, .footer\n"
    ∷ txt "{\n"
    ∷ txt "\tbackground-color: #eeeeee;\n"
    ∷ txt "\twidth\t\t: 100%;\n"
    ∷ txt "}\n"
    ∷ txt "\n"
    ∷ txt ".footer\n"
    ∷ txt "{\n"
    ∷ txt "\tmargin-top\t: 5em;\n"
    ∷ txt "}\n"
    ∷ txt "\n"
    ∷ txt "a\n"
    ∷ txt "{\n"
    ∷ txt "\tbackground-color: transparent;\n"
    ∷ txt "\ttext-decoration\t: none;\n"
    ∷ txt "\tborder-bottom\t: 1px solid #bbbbbb;\n"
    ∷ txt "\tcolor\t\t: black;\n"
    ∷ txt "}\n"
    ∷ txt "\n"
    ∷ txt "a:hover\n"
    ∷ txt "{\n"
    ∷ txt "\tcolor\t\t: #000000;\n"
    ∷ txt "\ttext-decoration\t: none;\n"
    ∷ txt "\tbackground-color: #d1dfd5;\n"
    ∷ txt "\tborder-bottom\t: 1px solid #a8bdae;\n"
    ∷ txt "}\n"
    ∷ txt "\n"
    ∷ txt ".right\n"
    ∷ txt "{\n"
    ∷ txt "\ttext-align\t: right\n"
    ∷ txt "}\n"
    ∷ txt "\n"
    ∷ txt "div.status\n"
    ∷ txt "{\n"
    ∷ txt "\toverflow\t: hidden;\n"
    ∷ txt "\tbackground-color: #eeeeee;\n"
    ∷ txt "}\n"
    ∷ txt "\n"
    ∷ txt "div.status div.statuslabel\n"
    ∷ txt "{\n"
    ∷ txt "\tfloat\t\t: left;\n"
    ∷ txt "\tfont-weight\t: bold;\n"
    ∷ txt "\tpadding-right\t: 0.5em;\n"
    ∷ txt "}\n"
    ∷ txt "\n"
    ∷ txt "div.status div.statustext\n"
    ∷ txt "{\n"
    ∷ txt "\tfloat\t\t: left;\n"
    ∷ txt "}\n"
    ∷ txt "\n"
    ∷ txt "div.coltainer\n"
    ∷ txt "{\n"
    ∷ txt "\toverflow\t: hidden;\n"
    ∷ txt "\tposition\t: relative\n"
    ∷ txt "}\n"
    ∷ txt "\n"
    ∷ txt "div.coltainer div.colleft\n"
    ∷ txt "{\n"
    ∷ txt "\tfloat\t\t: left;\n"
    ∷ txt "\twidth\t\t: 50%;\n"
    ∷ txt "}\n"
    ∷ txt "\n"
    ∷ txt "div.coltainer div.colright\n"
    ∷ txt "{\n"
    ∷ txt "\tfloat\t\t: left;\n"
    ∷ txt "\twidth\t\t: 50%;\n"
    ∷ txt "}\n"
    ∷ txt "\n"
    ∷ txt "div.colleft button, div.colright button\n"
    ∷ txt "{\n"
    ∷ txt "\tposition\t: absolute;\n"
    ∷ txt "\tbottom\t\t: 0px;\n"
    ∷ txt "}\n"
    ∷ txt "\n"
    ∷ txt "textarea#log, textarea#acsnet\n"
    ∷ txt "{\n"
    ∷ txt "\tmargin\t\t: 5px;\n"
    ∷ txt "\tborder\t\t: 2px solid black;\n"
    ∷ txt "\tvertical-align\t: middle;\n"
    ∷ txt "}\n"
    ∷ txt "\n"
    ∷ txt "textarea#acsnet\n"
    ∷ txt "{\n"
    ∷ txt "\twidth\t\t: 500px;\n"
    ∷ txt "\theight\t\t: 130px;\n"
    ∷ txt "}\n"
    ∷ txt "\n"
    ∷ txt "textarea#log\n"
    ∷ txt "{\n"
    ∷ txt "\twidth\t\t: 90%;\n"
    ∷ txt "\theight\t\t: 250px;\n"
    ∷ txt "}\n"
    ∷ txt "\n"
    ∷ []

unfoldable pub djb_html_css : ℕ → List Event
unfolding css_text
djb_html_css hcl = expire hcl long ∷ put hcl (joined css_text) ∷ []

unfoldable pub top_text : List Text
top_text =
    txt "<!doctype html>\n"
    ∷ txt "<html lang=\"en\">\n"
    ∷ txt "<head>\n"
    ∷ txt "<title>DEFIANCE JumpBox</title>\n"
    ∷ txt "<link rel=\"icon\" type=\"image/png\" "
    ∷ txt "href=\"http://www.farsightsecurity.com/favicon.ico\">\n"
    ∷ txt "<link rel=\"stylesheet\" type=\"text/css\" href=\"/djb.css\" />\n"
    ∷ txt "</head>\n"
    ∷ txt "<body>\n"
    ∷ txt "<div class=\"header\">\n"
    ∷ txt "SAFER DEFIANCE :: JumpBox\n"
    ∷ txt "</div>\n"
    ∷ []

unfoldable pub djb_html_top : ℕ → List Event
unfolding top_text
djb_html_top hcl = put hcl (joined top_text) ∷ []

unfoldable pub tail_text : List Text
tail_text =
    txt "<div class=\"footer\">\n"
    ∷ txt "SAFER DEFIANCE :: Defiance JumpBox (djb) by "
    ∷ txt "<a href=\"http://www.farsightsecurity.com\">"
    ∷ txt "Farsight Security, Inc"
    ∷ txt "</a>.\n"
    ∷ txt "</div>\n"
    ∷ txt "</body>\n"
    ∷ txt "</html>\n"
    ∷ []

unfoldable pub djb_html_tail : ℕ → List Event
unfolding tail_text
djb_html_tail hcl = put hcl (joined tail_text) ∷ []
